-- ===== src/Assets/Genesis.antt =====
-- `add_extra_genesis` of rio-assets/src/lib.rs: each configured asset is created with no issuance,
-- restricted, and endowed. An endowment overwrites a balance, and the issuance is their sum.
pub mod Endowment
pub mod Built
pub mod Backing
use riochain.Prelude.{ℕ, true, none, List, [], ◌∷◌}
use riochain.Prelude.Words.{wrapping_add}
use riochain.Prelude.Outcome.{Action, pure, unwrap, ◌>>◌}
use riochain.Assets.Types.{AccountId, AssetId, Balance, Restriction, Assets}
use riochain.Assets.Module.{create_asset, set_free_balance, set_total_issuance}
use riochain.Assets.Calls.{Chain, on_assets, root_origin, Trait, owned_by, update_restriction}

pub record AssetConfig : Type 0 where
  pub id : AssetId
  pub symbol : List ℕ
  pub restrictions : List Restriction
  pub endowed : List (AccountId × Balance)

unfoldable pub endow : AssetId → List (AccountId × Balance) → Action Assets Unit
endow id [] = pure tt
endow id ((account_id, balance) ∷ rest) = do set_free_balance id account_id balance; endow id rest

-- `fold(Zero::zero(), |sum, val| sum + val.1)`
unfoldable pub endowed_sum : Balance → List (AccountId × Balance) → Balance
endowed_sum sum [] = sum
endowed_sum sum ((_, balance) ∷ rest) = endowed_sum (wrapping_add sum balance) rest

module _ {X : Type 0} (t : Trait X) where
  unfoldable pub forbid : AssetId → List Restriction → Action (Chain X) Unit
  unfolding update_restriction
  forbid id [] = pure tt
  forbid id (forbidden ∷ rest) = do
    unwrap (update_restriction t root_origin id forbidden true)
    forbid id rest

  unfoldable pub build_asset : AccountId → AssetConfig → Action (Chain X) Unit
  unfolding create_asset forbid endow
  build_asset root config = do
    unwrap (
        on_assets (
          create_asset config.id config.symbol none
            (record { initial_issuance = 0; permissions = owned_by root })))
    forbid config.id config.restrictions
    on_assets (endow config.id config.endowed)
    on_assets (set_total_issuance config.id (endowed_sum 0 config.endowed))

  unfoldable pub build : AccountId → List AssetConfig → Action (Chain X) Unit
  unfolding build_asset
  build root [] = pure tt
  build root (config ∷ rest) = do build_asset root config; build root rest
