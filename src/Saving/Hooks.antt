-- ===== src/Saving/Hooks.antt =====
-- The hooks of the pallet round the asset calls, tied to those calls: a transfer of the collection
-- asset stakes it, and one of a phase's asset redeems it.
use riochain.Prelude.{◌==◌, ◌&&◌, not, if◌then◌else◌}
use riochain.Prelude.Maps.{exists}
use riochain.Prelude.Outcome.{pure, ensure, ◌>>=◌, ◌>>◌}
use riochain.Assets.Types.{AccountId, AssetId, Balance}
use riochain.Assets.Calls.{Trait, no_hooks}
use riochain.Saving.Types.{Saving, Env, Call, pallet}
use riochain.Saving.Phases.{create_staking}
use riochain.Saving.Redeem.{check_can_redeem, make_redeem}
use riochain.Saving.Shares.{track_share_asset_movement, on_asset_mint, on_asset_burn}

-- `ensure!` that a transfer to the collection account may redeem.
unfoldable pub before_asset_transfer : AssetId → AccountId → AccountId → Balance → Call
unfolding check_can_redeem
before_asset_transfer asset_id from to balance = do
  paused ← pallet (λ s. s.paused)
  redeeming ← pallet (λ s. exists (s.iou_asset_phase_id asset_id) && to == s.collection_account_id)
  if paused then pure tt else if redeeming then check_can_redeem asset_id from balance else pure tt

module _ (t : Trait Saving) (env : Env) where
  unfoldable pub on_asset_transfer : AssetId → AccountId → AccountId → Balance → Call
  unfolding track_share_asset_movement create_staking make_redeem
  on_asset_transfer asset_id from to balance = do
    paused ← pallet (λ s. s.paused)
    share_asset_id ← pallet (λ s. s.share_asset_id)
    collection_account_id ← pallet (λ s. s.collection_account_id)
    collection_asset_id ← pallet (λ s. s.collection_asset_id)
    redeeming ← pallet (λ s. exists (s.iou_asset_phase_id asset_id))
    if paused then pure tt else do
      ensure (not (from == to)) "from == to in transfer"
      if share_asset_id == 0
          then pure tt
          else if asset_id == share_asset_id
          then track_share_asset_movement env from to balance
          else if asset_id == collection_asset_id && to == collection_account_id
          then (do create_staking t from balance; pure tt)
          else if redeeming && to == collection_account_id
          then make_redeem t asset_id from collection_asset_id to balance share_asset_id
          else pure tt

module _ (root : AccountId) (env : Env) where
  -- The hooks that the pallet's own mints and burns run into; it makes no transfer that has hooks.
  abbrev pub inner_hooks : Trait Saving
  inner_hooks = record (no_hooks root) {
    on_asset_mint = on_asset_mint env;
    on_asset_burn = on_asset_burn env;
  }

  abbrev pub saving_hooks : Trait Saving
  saving_hooks = record inner_hooks {
    before_asset_transfer = before_asset_transfer;
    on_asset_transfer = on_asset_transfer inner_hooks env;
  }
