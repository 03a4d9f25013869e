-- ===== src/Saving/Minting.antt =====
-- The assets that a saving mints: the reserve, the phase's own asset, and the shares.
use riochain.Prelude.{ℕ, ◌/◌, ◌*◌, Option, none, some, [], ◌∷◌, ◌++◌, ltb, ◌==◌, not, if◌then◌else◌}
use riochain.Prelude.Words.{u128_mod, wrapping_mul}
use riochain.Prelude.Maps.{exists, get_or}
use riochain.Prelude.Linked.{lookup, insert, remove}
use riochain.Prelude.Outcome.{Action, pure, expect, ensure, unwrap, ◌>>=◌, ◌>>◌}
use riochain.Assets.Types.{AccountId, AssetId, Balance}
use riochain.Assets.Calls
use riochain.Assets.Calls.{Chain, root_origin, Trait}
use riochain.Price.{Price, price_precision}
use riochain.Saving.Types.{
  reserved_mint_ratio, reserved_mint_div, PhaseInfo, Iou, ShareReleasePack, Saving, Call, pallet,
  change,
}
use riochain.Saving.Packs.{release, create_share_release_pack, aggregate_phase_unreleased}

unfoldable pub sbtc_to_reserved_mint : Price → Balance → Balance
unfolding wrapping_mul
sbtc_to_reserved_mint current_price amount =
    wrapping_mul (wrapping_mul current_price amount) reserved_mint_ratio
    / (price_precision * reserved_mint_div)

-- `checked_mul(…).expect(…)`
abbrev pub checked_mul : ℕ → ℕ → Option ℕ
checked_mul a b = if ltb (a * b) u128_mod then some (a * b) else none

unfoldable pub create_iou : AccountId → PhaseInfo → Balance → Action (Chain Saving) Iou
create_iou owner phase_info saving = do
  asset_id ← expect phase_info.iou_asset_id
  pure (record { asset_id = asset_id; balance = saving; owner = owner })

unfoldable pub create_release_pack_for_saving :
    AccountId → AssetId → Balance → PhaseInfo → Action (Chain Saving) ShareReleasePack
unfolding create_share_release_pack
create_release_pack_for_saving owner asset_id balance phase_info = do
  ensure (not (balance == 0)) "saving balance must not be zero"
  share_balance ← expect (checked_mul balance phase_info.exchange)
  effective_phases_count ← pallet (λ s. s.num_of_phases_left)
  ensure (ltb 0 effective_phases_count) "should not create share packages for the last phase"
  expect
      (create_share_release_pack owner asset_id phase_info.id share_balance effective_phases_count)

-- `register_iou` does nothing. A pack joins the owner's list, where the packs of its phase become one.
unfoldable pub register_share_pack : ShareReleasePack → Call
unfolding aggregate_phase_unreleased
register_share_pack pack = if pack.empty then pure tt else do
  found ← pallet (λ s. lookup pack.owner s.share_unreleased_list)
  let list = get_or [] found
  change λ s. record s {
    share_unreleased_list =
        if exists found then remove pack.owner s.share_unreleased_list else s.share_unreleased_list;
  }
  v ←
      if exists found
      then unwrap (
          aggregate_phase_unreleased (list ++ pack ∷ []) pack.phase_id pack.asset_id pack.owner
            none)
      else pure (pack ∷ [])
  change λ s. record s { share_unreleased_list = insert pack.owner v s.share_unreleased_list }

module _ (t : Trait Saving) where
  unfoldable pub create_reserved : Balance → Call
  create_reserved amount = do
    asset_id ← pallet (λ s. s.reserved_mint_asset_id)
    wallet ← pallet (λ s. s.reserved_mint_wallet)
    Calls.mint t root_origin asset_id wallet amount

  unfoldable pub burn_reserved : Balance → Call
  burn_reserved amount = do
    asset_id ← pallet (λ s. s.reserved_mint_asset_id)
    wallet ← pallet (λ s. s.reserved_mint_wallet)
    Calls.burn t root_origin asset_id wallet amount

  -- `mint_assets(Some(iou), None)`
  abbrev mint_iou : Iou → Call
  mint_iou iou = Calls.mint t root_origin iou.asset_id iou.owner iou.balance

  abbrev pub mint_share : ShareReleasePack → Option Balance → Action (Chain Saving) Balance
  mint_share p none = pure 0
  mint_share p (some balance) = do Calls.mint t root_origin p.asset_id p.owner balance; pure balance

  -- `mint_assets(None, Some(pack))`: the share balance, and the pack after its release.
  unfoldable pub mint_pack : ShareReleasePack → Action (Chain Saving) (Balance × ShareReleasePack)
  unfolding release
  mint_pack p = do
    let released = release p
    balance ← mint_share p released.0
    pure (balance, released.1)

  -- `mint_assets(Some(iou), Some(pack))`
  unfoldable pub mint_assets :
      Iou → ShareReleasePack → Action (Chain Saving) (Balance × Balance × ShareReleasePack)
  unfolding mint_pack
  mint_assets iou p = do mint_iou iou; minted ← mint_pack p; pure (iou.balance, minted.0, minted.1)
