-- ===== src/ChainSpec/Genesis.antt =====
-- The genesis of each chain in src/chain_spec.rs: `testnet_genesis` and `beta_genesis`.
use Prim.Native.Char.{code}
use riochain.Prelude.{ℕ, String, List, [], ◌∷◌}
use riochain.Assets.Types.{AccountId, AssetId, transferable, rfuel, locked_rfuel, sbtc}
use riochain.Assets.Genesis.{AssetConfig}
use riochain.Bridge.Types.{Auth}
use riochain.Runtime.Genesis.{AuraId, GrandpaId, GenesisConfig}

-- What the node takes from the framework: the keys that stand behind a seed, and those that 32
-- bytes are read as. The bytes are given by their hexadecimal text.
pub record Keys : Type 0 where
  pub get_aura_from_seed : String → AuraId
  pub get_grandpa_from_seed : String → GrandpaId
  pub get_account_id_from_seed : String → AccountId
  pub aura_of_hex : String → AuraId
  pub grandpa_of_hex : String → GrandpaId
  pub account_of_hex : String → AccountId

-- A byte string `b"…"` of the source, which is ASCII.
abbrev pub bytes : String → List ℕ
bytes String.[] = []
bytes (String.◌∷◌ c s) = code c ∷ bytes s

abbrev pub susdt : AssetId
susdt = 11

abbrev plain : AssetId → String → AssetConfig
plain id symbol = record { id = id; symbol = bytes symbol; restrictions = []; endowed = [] }

-- The assets, which are the same in both: locked fuel is not transferable, and none is endowed.
abbrev pub protocol_symbols : List AssetConfig
protocol_symbols =
    plain rfuel "RFUEL"
    ∷ record {
      id = locked_rfuel;
      symbol = bytes "Locked RFUEL";
      restrictions = transferable ∷ [];
      endowed = [];
    }
    ∷ plain sbtc "SBTC"
    ∷ plain susdt "S-USDT"
    ∷ plain 101 "RBTC"
    ∷ plain 102 "RSC1"
    ∷ plain 103 "RSC2"
    ∷ plain 104 "RSC3"
    ∷ plain 105 "RSC4"
    ∷ plain 106 "RSC5"
    ∷ []

-- `initial_authorities.iter().map(|x| (x.1.clone(), 1))`
abbrev authority_weights : List (AuraId × GrandpaId) → List (GrandpaId × ℕ)
authority_weights [] = []
authority_weights ((aura, grandpa) ∷ rest) = (grandpa, 1) ∷ authority_weights rest

abbrev aura_keys : List (AuraId × GrandpaId) → List AuraId
aura_keys [] = []
aura_keys ((aura, grandpa) ∷ rest) = aura ∷ aura_keys rest

module _ (keys : Keys) where
  unfoldable pub get_authority_keys_from_seed : String → AuraId × GrandpaId
  get_authority_keys_from_seed seed =
      (keys.get_aura_from_seed seed, keys.get_grandpa_from_seed seed)

  unfoldable pub testnet_genesis :
      List (AuraId × GrandpaId) → AccountId → List AccountId → GenesisConfig
  testnet_genesis initial_authorities root_key endowed_accounts = record {
    indices = endowed_accounts;
    sudo = root_key;
    aura = aura_keys initial_authorities;
    grandpa = authority_weights initial_authorities;
    rio_assets = record { root = root_key; symbols = protocol_symbols };
    rio_bridge = record {
      asset_id = sbtc;
      threshold = 3000000000;
      admins = (keys.get_account_id_from_seed "Alice", Auth.all) ∷ [];
      pending_withdraw_vault = keys.get_account_id_from_seed "withdraw vault";
    };
    rio_fee = record { account_id = keys.get_account_id_from_seed "Eve" };
  }

  unfoldable pub beta_genesis :
      List (AuraId × GrandpaId) → AccountId → List AccountId → GenesisConfig
  beta_genesis initial_authorities root_key endowed_accounts = record {
    indices = endowed_accounts;
    sudo = root_key;
    aura = aura_keys initial_authorities;
    grandpa = authority_weights initial_authorities;
    rio_assets = record { root = root_key; symbols = protocol_symbols };
    rio_bridge = record {
      asset_id = sbtc;
      threshold = 3000000000;
      admins =
          (
            keys.account_of_hex "8ee3e606982e20e495b622d091a99d4cdbc669afd8c08efb1acfb375b2e9f61a",
            Auth.all,
          )
          ∷ [];
      pending_withdraw_vault =
          keys.account_of_hex "5e1379e6dbd99ec5914c127f7eada6a6a6c773ed47cadf4f023577b0deb3ab09";
    };
    rio_fee = record {
      account_id =
          keys.account_of_hex "16bb3aef8cfefcf218ffa6d8722baa4ae808acb0de521e71ccbdeb3bf9cb2d1e";
    };
  }
