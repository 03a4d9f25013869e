-- ===== src/ChainSpec/Starting.antt =====
-- The chains of src/chain_spec.rs from their genesis on.
use riochain.Prelude.{◌<◌, ◌≡◌, refl, true, List, [], ◌∷◌, arith, All, contains, IsDistinct}
use riochain.Prelude.Outcome.{Returns, ◌>>◌}
use riochain.Assets.Types.{AccountId, AssetId}
use riochain.Prelude.Words.{u128_mod}
use riochain.Assets.Genesis.Backing.{IsEndowable, ids}
use riochain.Assets.Runs.{settle}
use riochain.Runtime.Types.{Framework}
use riochain.Runtime.Calls.{Step, run}
use riochain.Runtime.Sound.{IsSound, AreAllowed}
use riochain.Runtime.Genesis.{GenesisConfig, build_storage, empty}
use riochain.Runtime.Launch.{IsValid, launch-IsSound}
use riochain.ChainSpec.Alternative.{Alternative}
use riochain.ChainSpec.Genesis.{Keys, protocol_symbols, testnet_genesis, beta_genesis}
use riochain.ChainSpec.Spec.{load, genesis}

-- The accounts of a genesis that hold or may mint assets.
abbrev pub held_by : GenesisConfig → List AccountId
held_by config =
    config.sudo ∷ config.rio_fee.account_id ∷ config.rio_bridge.pending_withdraw_vault ∷ []

abbrev pub AreListed : List AccountId → List AccountId → Type 0
AreListed accounts others = All (λ who. contains accounts who ≡ true) others

symbols_apart : IsDistinct (ids protocol_symbols)
symbols_apart = (refl, (refl, (refl, (refl, (refl, (refl, (refl, (refl, (refl, (refl, tt))))))))))

symbols-IsEndowable : (accounts : List AccountId) → All (IsEndowable accounts) protocol_symbols
symbols-IsEndowable accounts =
    let fits : Unit × Unit × (0 < u128_mod) = (tt, tt, ground arith) in
    (fits, (fits, (fits, (fits, (fits, (fits, (fits, (fits, (fits, (fits, tt))))))))))

protocol_symbols-IsValid :
    (accounts : List AccountId) (config : GenesisConfig)
    → protocol_symbols ≡ config.rio_assets.symbols
    → AreListed accounts (held_by config)
    → IsValid accounts config
protocol_symbols-IsValid accounts config same listed = record {
  apart = rw (← same) symbols_apart;
  endowable = rw (← same) (symbols-IsEndowable accounts);
  listed_sudo = listed.0;
  listed_fee = listed.1.0;
  listed_vault = listed.1.1.0;
}

module _ (keys : Keys) (accounts : List AccountId) where
  pub symbols_of : (a : Alternative) → protocol_symbols ≡ (load keys a).genesis.rio_assets.symbols
  unfolding load genesis testnet_genesis beta_genesis
  symbols_of Alternative.development = refl
  symbols_of Alternative.local_testnet = refl
  symbols_of Alternative.testnet = refl
  symbols_of Alternative.beta = refl

  genesis-IsValid :
      (a : Alternative)
      → AreListed accounts (held_by (load keys a).genesis)
      → IsValid accounts (load keys a).genesis
  genesis-IsValid a listed =
      protocol_symbols-IsValid accounts (load keys a).genesis (symbols_of a) listed

  -- Every chain that the node knows builds its genesis without a panic, and any steps after it, in
  -- blocks, return or fail: none panics, and each asset stays backed, with the sudo key, the fee
  -- account and the vault listed. The listed accounts are distinct; those of the genesis and those
  -- that the steps name are listed, a created asset gets a balance that is a `u128`, and a charge has
  -- room for twice its fee in the issuance of fuel.
  pub chain-IsSound :
      {M : Type 0} (framework : Framework M) (a : Alternative) (asset : AssetId) (steps : List Step)
      → IsDistinct accounts
      → AreListed accounts (held_by (load keys a).genesis)
      → AreAllowed framework accounts steps
          (settle (empty framework) (build_storage (load keys a).genesis (empty framework)))
      → Returns
          ((build_storage (load keys a).genesis >> run framework steps) (empty framework))
          λ _. IsSound accounts asset
  chain-IsSound framework a asset steps distinct listed allowed =
      launch-IsSound framework accounts distinct asset (load keys a).genesis steps
        (genesis-IsValid a listed) allowed
