-- ===== src/Assets/Genesis/Built.antt =====
-- What the genesis build of one asset in rio-assets/src/lib.rs writes.
use riochain.Prelude.{ℕ, ◌≡◌, refl, ◌∙◌, ap, false, Option, none, some, List, [], ◌∷◌}
use riochain.Prelude.Maps.{update, update_at, exists}
use riochain.Prelude.Outcome.{Returns, Returns->>=, Returns_imp, unwrap, Action, ◌>>◌}
use riochain.Assets.Types.{AccountId, AssetId, Balance, Restriction, Assets}
use riochain.Assets.Module.{should_not_exist, create_asset, set_total_issuance}
use riochain.Assets.Calls
use riochain.Assets.Calls.{Chain, Trait, on_assets}
use riochain.Assets.Genesis.{AssetConfig, endow, endowed_sum, forbid, build_asset}
use riochain.Assets.Genesis.Endowment.{given, endow-given}

-- The parts of the storage that the supply is read from.
pub record IsStored (free reserved : AssetId → AccountId → Balance) (issuance : AssetId → Balance)
    (symbols : AssetId → Option (List ℕ)) (s : Assets) : Type 0 where
  pub free_is : s.free_balance ≡ free
  pub reserved_is : s.reserved_balance ≡ reserved
  pub issuance_is : s.total_issuance ≡ issuance
  pub symbols_is : s.symbols ≡ symbols

abbrev IsAlike : Assets → Assets → Type 0
IsAlike s = IsStored s.free_balance s.reserved_balance s.total_issuance s.symbols

abbrev IsCreated : AssetConfig → Assets → Assets → Type 0
IsCreated config s =
    IsStored (update_at s.free_balance config.id 0 0) s.reserved_balance
      (update s.total_issuance config.id 0) (update s.symbols config.id (some config.symbol))

-- What the build of an asset writes.
abbrev pub IsBuilt : AssetConfig → Assets → Assets → Type 0
IsBuilt config s =
    IsStored (given config.id config.endowed (update_at s.free_balance config.id 0 0))
      s.reserved_balance
      (update (update s.total_issuance config.id 0) config.id (endowed_sum 0 config.endowed))
      (update s.symbols config.id (some config.symbol))

abbrev create_configured : {X : Type 0} → AccountId → AssetConfig → Action (Chain X) Unit
create_configured root config = on_assets (
    create_asset config.id config.symbol none
      (record { initial_issuance = 0; permissions = Calls.owned_by root }))

module _ {X : Type 0} (t : Trait X) where
  forbid-IsAlike :
      (id : AssetId) (restrictions : List Restriction) (c : Chain X)
      → Returns (forbid t id restrictions c) (λ _ c'. IsAlike c.assets c'.assets)
  unfolding forbid Calls.update_restriction
  forbid-IsAlike id [] c = record {
    free_is = refl;
    reserved_is = refl;
    issuance_is = refl;
    symbols_is = refl;
  }
  forbid-IsAlike id (r ∷ rest) c = forbid-IsAlike id rest _

  create-IsCreated :
      (root : AccountId) (config : AssetConfig) (c : Chain X)
      → exists (c.assets.symbols config.id) ≡ false
      → Returns
          (unwrap (create_configured root config) c)
          λ _ c'. IsCreated config c.assets c'.assets
  unfolding create_asset should_not_exist
  create-IsCreated root config c fresh =
      rw (fresh, Returns)
        (record { free_is = refl; reserved_is = refl; issuance_is = refl; symbols_is = refl })

  endow_issue-IsBuilt :
      (config : AssetConfig) (s : Assets) (c : Chain X)
      → IsCreated config s c.assets
      → Returns
          ((on_assets (endow config.id config.endowed)
              >> on_assets (set_total_issuance config.id (endowed_sum 0 config.endowed)))
            c)
          (λ _ c'. IsBuilt config s c'.assets)
  endow_issue-IsBuilt config s c h =
      rw (endow-given config.id config.endowed c.assets, Returns)
        (record {
          free_is = ap (given config.id config.endowed) h.free_is;
          reserved_is = h.reserved_is;
          issuance_is =
              ap (λ issuance. update issuance config.id (endowed_sum 0 config.endowed))
                h.issuance_is;
          symbols_is = h.symbols_is;
        })

  pub build_asset-IsBuilt :
      (root : AccountId) (config : AssetConfig) (c : Chain X)
      → exists (c.assets.symbols config.id) ≡ false
      → Returns (build_asset t root config c) (λ _ c'. IsBuilt config c.assets c'.assets)
  unfolding build_asset
  build_asset-IsBuilt root config c fresh =
      let s = c.assets in
      Returns->>=
        (λ _. do
          forbid t config.id config.restrictions
          on_assets (endow config.id config.endowed)
          on_assets (set_total_issuance config.id (endowed_sum 0 config.endowed)))
        (λ _ c'. IsCreated config s c'.assets) (λ _ c'. IsBuilt config s c'.assets)
        (unwrap (create_configured root config)) c (create-IsCreated root config c fresh)
        λ _ c1 h1.
          Returns->>=
            (λ _. do
              on_assets (endow config.id config.endowed)
              on_assets (set_total_issuance config.id (endowed_sum 0 config.endowed)))
            (λ _ c'. IsCreated config s c'.assets) (λ _ c'. IsBuilt config s c'.assets)
            (forbid t config.id config.restrictions) c1
            (Returns_imp (λ _ c'. IsCreated config s c'.assets)
              (forbid t config.id config.restrictions c1)
              (forbid-IsAlike config.id config.restrictions c1)
              (λ _ c2 h2. record {
                free_is = h2.free_is ∙ h1.free_is;
                reserved_is = h2.reserved_is ∙ h1.reserved_is;
                issuance_is = h2.issuance_is ∙ h1.issuance_is;
                symbols_is = h2.symbols_is ∙ h1.symbols_is;
              }))
            (λ _ c2 h2. endow_issue-IsBuilt config s c2 h2)
