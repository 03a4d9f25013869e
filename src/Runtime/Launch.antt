-- ===== src/Runtime/Launch.antt =====
-- From the genesis on, blocks of the runtime keep its assets backed.
use riochain.Prelude.{◌≡◌, refl, true, List, [], ◌∷◌, sum_of, arith, All, contains, IsDistinct}
use riochain.Prelude.Outcome.{Outcome, ok, err, panic, Returns, Returns->>=, modify, ◌>>◌}
use riochain.Assets.Types.{AccountId, AssetId}
use riochain.Assets.Supply.{IsBacked}
use riochain.Assets.Calls.{no_hooks}
use riochain.Assets.Genesis.{build}
use riochain.Assets.Genesis.Backing.{IsEndowable, ids, build-IsBacked}
use riochain.Assets.Runs.{settle}
use riochain.Runtime.Types.{Framework, Runtime, Returns-on_chain}
use riochain.Runtime.Calls.{Step, run, on_rio_assets}
use riochain.Runtime.Sound.{IsSound, AreAllowed, run-IsSound}
use riochain.Runtime.Genesis.{GenesisConfig, no_assets, build_bridge, build_storage, empty}

-- The assets have distinct ids and endowments that fit, of listed accounts; the sudo key, the fee
-- account and the vault are listed.
pub record IsValid (accounts : List AccountId) (config : GenesisConfig) : Type 0 where
  pub apart : IsDistinct (ids config.rio_assets.symbols)
  pub endowable : All (IsEndowable accounts) config.rio_assets.symbols
  pub listed_sudo : contains accounts config.sudo ≡ true
  pub listed_fee : contains accounts config.rio_fee.account_id ≡ true
  pub listed_vault : contains accounts config.rio_bridge.pending_withdraw_vault ≡ true

nothing_held : (accounts : List AccountId) → sum_of (λ who. 0) accounts ≡ 0
nothing_held [] = refl
nothing_held (x ∷ xs) = omega (arith, nothing_held xs)

no_assets-IsBacked :
    (accounts : List AccountId) (asset : AssetId) → IsBacked accounts asset no_assets
no_assets-IsBacked accounts asset = ground (arith, nothing_held accounts)

module _ {M : Type 0} (framework : Framework M) (accounts : List AccountId)
    (distinct : IsDistinct accounts) (asset : AssetId) where
  abbrev IsLaid : AccountId → Runtime M → Type 0
  IsLaid key r = IsBacked accounts asset r.rio_assets × (r.sudo_key ≡ key)

  -- The genesis build never panics, and leaves a state that is sound. The configuration is valid.
  pub build_storage-IsSound :
      (config : GenesisConfig)
      → IsValid accounts config
      → Returns (build_storage config (empty framework)) (λ _. IsSound accounts asset)
  unfolding build_storage build_bridge
  build_storage-IsSound config valid =
      let start = record (empty framework) { sudo_key = config.sudo } in
      let t = no_hooks config.sudo in
      let assets = build t config.rio_assets.root config.rio_assets.symbols in
      Returns->>=
        (λ _. do
          modify (λ r. record r {
            rio_fee = record { account_id = config.rio_fee.account_id; events = [] };
          })
          modify (λ r. record r { rio_bridge = build_bridge config.rio_bridge }))
        (λ _. IsLaid config.sudo) (λ _. IsSound accounts asset) (on_rio_assets assets) start
        (Returns-on_chain (λ r. tt) (λ _ r. r) assets (λ c. IsBacked accounts asset c.assets)
          (IsLaid config.sudo) start
          (build-IsBacked t config.rio_assets.root accounts distinct asset config.rio_assets.symbols
            _ valid.apart valid.endowable (λ a found. (refl, refl, λ who. refl, λ who. refl))
            (no_assets-IsBacked accounts asset))
          (λ c h. (h, refl)))
        (λ _ r h.
          (rw h.1 valid.listed_sudo, valid.listed_fee, (h.0, valid.listed_vault, λ who. tt)))

  launch_after :
      (o : Outcome (Runtime M) Unit) (steps : List Step)
      → Returns o (λ _. IsSound accounts asset)
      → AreAllowed framework accounts steps (settle (empty framework) o)
      → Returns
          (((λ (_ : Runtime M). o) >> run framework steps) (empty framework))
          λ _. IsSound accounts asset
  launch_after (ok a r) steps h allowed =
      run-IsSound framework accounts distinct asset steps r allowed h
  launch_after (err e r) steps h allowed = absurd h
  launch_after panic steps h allowed = absurd h

  -- From the genesis on, any steps end in a sound state: each of them returns or fails, none panics,
  -- and the asset is backed. The configuration is valid, the accounts that the steps name are
  -- listed, and a charge has room for twice its fee in the issuance of fuel.
  pub launch-IsSound :
      (config : GenesisConfig) (steps : List Step)
      → IsValid accounts config
      → AreAllowed framework accounts steps
          (settle (empty framework) (build_storage config (empty framework)))
      → Returns
          ((build_storage config >> run framework steps) (empty framework))
          λ _. IsSound accounts asset
  launch-IsSound config steps valid allowed =
      launch_after (build_storage config (empty framework)) steps
        (build_storage-IsSound config valid) allowed
