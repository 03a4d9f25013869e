-- ===== src/Runtime/Genesis.antt =====
-- The genesis of the runtime: the configuration that `construct_runtime!` derives (runtime/src/lib.rs)
-- from the `config()` lines of the pallets, and the storage that is built from it.
use riochain.Prelude.{ℕ, Option, false, none, some, List, [], ◌∷◌}
use riochain.Prelude.Maps.{update}
use riochain.Prelude.Outcome.{Action, modify, ◌>>◌}
use riochain.Assets.Types.{AccountId, AssetId, Balance, Owner, v1, Assets}
use riochain.Assets.Genesis.{AssetConfig, build}
use riochain.Assets.Calls.{no_hooks}
use riochain.Bridge.Types.{Auth, Bridge}
use riochain.Runtime.Types.{Framework, Runtime}
use riochain.Runtime.Calls.{on_rio_assets}

-- The keys of the two consensus pallets, which are only passed on.
abbrev pub AuraId : Type 0
AuraId = ℕ

abbrev pub GrandpaId : Type 0
GrandpaId = ℕ

pub record RioAssetsConfig : Type 0 where
  pub root : AccountId
  pub symbols : List AssetConfig

pub record RioBridgeConfig : Type 0 where
  pub asset_id : AssetId
  pub threshold : Balance
  pub admins : List (AccountId × Auth)
  pub pending_withdraw_vault : AccountId

pub record RioFeeConfig : Type 0 where
  pub account_id : AccountId

-- `indices`, `aura` and `grandpa` are for pallets of the framework. The code of the runtime, in
-- `system`, is what a build makes of it, and left out.
pub record GenesisConfig : Type 0 where
  pub indices : List AccountId
  pub sudo : AccountId
  pub aura : List AuraId
  pub grandpa : List (GrandpaId × ℕ)
  pub rio_assets : RioAssetsConfig
  pub rio_bridge : RioBridgeConfig
  pub rio_fee : RioFeeConfig

-- The storage before anything is written: every value is the default of its type.
abbrev pub no_assets : Assets
no_assets = record {
  total_issuance = λ a. 0;
  free_balance = λ a who. 0;
  reserved_balance = λ a who. 0;
  permissions = λ a. v1 (record { update = Owner.none; mint = Owner.none; burn = Owner.none });
  restrictions = λ a r. false;
  symbols = λ a. none;
  from_id = none;
  to_id = none;
  events = [];
}

-- The admins are inserted in their order, so a later entry of an account replaces an earlier one.
abbrev pub insert_admins :
    List (AccountId × Auth) → (AccountId → Option Auth) → AccountId → Option Auth
insert_admins [] admins = admins
insert_admins ((who, auth) ∷ rest) admins = insert_admins rest (update admins who (some auth))

unfoldable pub build_bridge : RioBridgeConfig → Bridge
build_bridge config = record {
  asset_id = config.asset_id;
  paused = false;
  list = λ who. none;
  threshold = config.threshold;
  admins = insert_admins config.admins (λ who. none);
  pending_deposit_list = λ who. [];
  deposit_history = λ tx. none;
  pending_withdraws = λ who. none;
  pending_withdraw_vault = config.pending_withdraw_vault;
  events = [];
}

module _ {M : Type 0} (framework : Framework M) where
  abbrev pub empty : Runtime M
  empty = record {
    block_number = 0;
    sudo_key = 0;
    rio_assets = no_assets;
    rio_fee = record { account_id = 0; events = [] };
    next_fee_multiplier = framework.initial_multiplier;
    rio_price = record {
      current_price = 0;
      price_reports = [];
      events = [];
      world = record { oracles = []; witness_report = λ who. 0 };
    };
    rio_bridge =
        build_bridge
          (record { asset_id = 0; threshold = 0; admins = []; pending_withdraw_vault = 0 });
  }

-- The pallets are built one after the other. A panic of one is a panic of the whole.
unfoldable pub build_storage : {M : Type 0} → GenesisConfig → Action (Runtime M) Unit
unfolding build_bridge
build_storage config = do
  modify (λ r. record r { sudo_key = config.sudo })
  on_rio_assets (build (no_hooks config.sudo) config.rio_assets.root config.rio_assets.symbols)
  modify
      (λ r. record r { rio_fee = record { account_id = config.rio_fee.account_id; events = [] } })
  modify (λ r. record r { rio_bridge = build_bridge config.rio_bridge })
