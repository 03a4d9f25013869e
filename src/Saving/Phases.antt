-- ===== src/Saving/Phases.antt =====
-- Staking: it fills the quota of the current phase, and goes on with the next one. A change of
-- phase releases one term of every pack.
use riochain.Prelude.{
  ℕ, zero, suc, ◌+◌, ◌-◌, ◌^◌, Bool, true, Option, none, some, List, [], ◌∷◌, ltb, leb, length,
  ◌==◌, ◌&&◌, not, if◌then◌else◌,
}
use riochain.Prelude.Words.{wrapping_add, wrapping_sub, checked_add}
use riochain.Prelude.Maps.{exists, get_or}
use riochain.Prelude.Linked.{LinkedMap, lookup, insert, remove}
use riochain.Prelude.Outcome.{Action, pure, abort, expect, ensure, unwrap, ◌>>=◌, ◌>>◌}
use riochain.Assets.Types.{AccountId, Balance}
use riochain.Assets.Calls.{Chain, Trait}
use riochain.Saving.Types.{
  PhaseId, PhaseInfo, default_phase, ShareReleasePack, Event, Saving, Call, pallet, change,
  deposit_event,
}
use riochain.Saving.Minting.{
  create_iou, create_release_pack_for_saving, register_share_pack, mint_pack, mint_assets,
}

abbrev pub put_unreleased : AccountId → List ShareReleasePack → Call
put_unreleased account_id list = change λ s.
    let rest = remove account_id s.share_unreleased_list in
    record s {
      share_unreleased_list = if length list == 0 then rest else insert account_id list rest;
    }

-- The balance that fits the phase's quota, the balance that goes on to the next phase, and whether
-- the phase is full.
pub record Split : Type 0 where
  pub fits : Balance
  pub next_phase_iou : Balance
  pub next_phase : Bool

unfoldable pub split_quota : Balance → Balance → Balance → Balance → Split
unfolding wrapping_sub
split_quota balance quota used_quota quota_will_be =
    if leb quota_will_be quota
    then record { fits = balance; next_phase_iou = 0; next_phase = quota_will_be == quota }
    else record {
      fits = wrapping_sub quota used_quota;
      next_phase_iou = wrapping_sub balance (wrapping_sub quota used_quota);
      next_phase = true;
    }

module _ (t : Trait Saving) where
  -- The closure over an account's packs: each releases a term, and the empty ones are dropped.
  unfoldable pub release_list :
      List ShareReleasePack → Action (Chain Saving) (List ShareReleasePack)
  unfolding mint_pack
  release_list [] = pure []
  release_list (p ∷ rest) = do
    minted ← unwrap (mint_pack t p)
    left ← release_list rest
    let p' = minted.1
    pure (if p'.empty then left else p' ∷ left)

  unfoldable pub release_accounts : LinkedMap (List ShareReleasePack) → Call
  unfolding release_list
  release_accounts [] = pure tt
  release_accounts ((account_id, list) ∷ rest) = do
    left ← release_list list
    put_unreleased account_id left
    release_accounts rest

  unfoldable pub shares_release_by_phase_change : Call
  unfolding release_accounts
  shares_release_by_phase_change = do
    lists ← pallet (λ s. s.share_unreleased_list)
    release_accounts lists

  unfoldable pub shift_next_phase : PhaseId → Action (Chain Saving) (Option PhaseId)
  unfolding shares_release_by_phase_change
  shift_next_phase current_phase_id = do
    new_phase_id ←
        expect (if ltb (current_phase_id + 1) (2 ^ 32) then some (current_phase_id + 1) else none)
    shares_release_by_phase_change
    found ← pallet (λ s. lookup new_phase_id s.phase_infos)
    if exists found
        then (do
          change λ s. record s {
            quota_used = 0;
            current_phase_id = new_phase_id;
            num_of_phases_left = s.num_of_phases_left - 1;
          }
          deposit_event (Event.phase_changed current_phase_id new_phase_id)
          pure (some new_phase_id))
        else (do
          change λ s.
              let info = get_or default_phase (lookup current_phase_id s.phase_infos) in
              record s { quota_used = info.quota }
          pure none)

  -- The saving in the current phase, before the phases shift.
  unfoldable pub stake_in_phase : AccountId → PhaseInfo → Balance → Call
  unfolding create_iou create_release_pack_for_saving mint_assets register_share_pack
  stake_in_phase who phase_info iou_balance = do
    share_asset_id ← pallet (λ s. s.share_asset_id)
    iou ← create_iou who phase_info iou_balance
    share_pack ← create_release_pack_for_saving who share_asset_id iou_balance phase_info
    minted ← mint_assets t iou share_pack
    register_share_pack minted.2
    deposit_event (Event.staking_created who minted.1 iou.asset_id iou_balance)

  -- The saving, and the shift of phases that follows it.
  unfoldable pub stake_split :
      AccountId → PhaseId → PhaseInfo → Split → Action (Chain Saving) (Balance × Option Balance)
  unfolding stake_in_phase shift_next_phase
  stake_split who phase_id phase_info split = do
    stake_in_phase who phase_info split.fits
    if split.next_phase
        then (do
          shifted ← shift_next_phase phase_id
          pure (
            split.fits,
            if exists shifted && ltb 0 split.next_phase_iou
                then some split.next_phase_iou
                else none,
          ))
        else pure (split.fits, none)

  -- All of `create_staking` but its recursive call: the balance that was staked, and the one that
  -- the call goes on with, if it does.
  unfoldable pub stake_once : AccountId → Balance → Action (Chain Saving) (Balance × Option Balance)
  unfolding checked_add split_quota stake_split
  stake_once who balance = do
    ensure (not (balance == 0)) "saving can't be zero"
    phase_id ← pallet (λ s. s.current_phase_id)
    found ← pallet (λ s. lookup phase_id s.phase_infos)
    ensure (exists found) "current phase id is invalid"
    let phase_info = get_or default_phase found
    used_quota ← pallet (λ s. s.quota_used)
    quota_will_be ← expect (checked_add used_quota balance)
    let split = split_quota balance phase_info.quota used_quota quota_will_be
    if split.next_phase then pure tt else change λ s. record s { quota_used = quota_will_be }
    stake_split who phase_id phase_info split

  -- On fuel, with what comes of it where that runs out: each call but the last one enters a later
  -- phase.
  unfoldable pub create_staking_fuel :
      Action (Chain Saving) Balance → ℕ → AccountId → Balance → Action (Chain Saving) Balance
  unfolding stake_once wrapping_add
  create_staking_fuel out zero who balance = out
  create_staking_fuel out (suc fuel) who balance = do
    staked ← stake_once who balance
    elim staked.1 [
      | none ↦ pure staked.0
      | some next ↦ do
        more ← create_staking_fuel out fuel who next
        pure (wrapping_add staked.0 more)
    ]

  unfoldable pub create_staking : AccountId → Balance → Action (Chain Saving) Balance
  unfolding create_staking_fuel
  create_staking who balance = do
    phases ← pallet (λ s. length s.phase_infos)
    create_staking_fuel abort (phases + 1) who balance
