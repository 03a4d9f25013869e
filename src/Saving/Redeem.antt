-- ===== src/Saving/Redeem.antt =====
-- Redeeming: shares come back, some of them from the locked packs, and are burnt for the savings.
use riochain.Prelude.{
  ℕ, ◌+◌, ◌-◌, ◌/◌, ◌%◌, ◌^◌, Bool, Option, none, some, List, [], ◌∷◌, ltb, leb, ◌==◌, ◌&&◌, ◌||◌,
  not, if◌then◌else◌,
}
use riochain.Prelude.Words.{wrapping_add, wrapping_sub, wrapping_mul}
use riochain.Prelude.Maps.{update, get_or}
use riochain.Prelude.Linked.{lookup, insert, remove}
use riochain.Prelude.Outcome.{ok, Action, pure, fail, expect, ensure, ◌>>=◌, ◌>>◌}
use riochain.Assets.Types.{AccountId, AssetId, Balance}
use riochain.Assets.Module.{make_transfer_with_event}
use riochain.Assets.Calls
use riochain.Assets.Calls.{Chain, on_assets, root_origin, Trait}
use riochain.Saving.Types.{
  PhaseId, PhaseInfo, default_phase, ShareReleasePack, BalanceChange, Event, Saving, Call, pallet,
  change, deposit_event,
}
use riochain.Saving.Packs.{get_total_balance, aggregate_phase_unreleased}

abbrev pub transfer : AssetId → AccountId → AccountId → Balance → Call
transfer asset_id from to amount = on_assets (make_transfer_with_event asset_id from to amount)

abbrev pub free : AssetId → AccountId → Action (Chain Saving) Balance
free asset_id who c = ok (c.assets.free_balance asset_id who) c

-- `a - b` of `u32`
abbrev pub sub32 : ℕ → ℕ → ℕ
sub32 a b = (a + 2 ^ 32 - b) % 2 ^ 32

-- The free and the locked part of the shares to return. `none` is a division by zero.
unfoldable pub redeem_required_balances_in_ratio :
    PhaseId → Balance → ℕ → ℕ → Option (Balance × Balance)
unfolding wrapping_mul wrapping_sub
redeem_required_balances_in_ratio phase_id required_balance total_phases phases_left =
    let terms = (sub32 total_phases phase_id + 1) % 2 ^ 32 in
    let locked = wrapping_mul required_balance (sub32 phases_left 1) / terms in
    if terms == 0 then none else some (wrapping_sub required_balance locked, locked)

-- The packs that pass a test, summed.
unfoldable pub sum_packs : (ShareReleasePack → Bool) → Balance → List ShareReleasePack → Balance
unfolding get_total_balance wrapping_add
sum_packs test acc [] = acc
sum_packs test acc (v ∷ rest) =
    sum_packs test (if test v then wrapping_add acc (get_total_balance v) else acc) rest

-- The phase of an asset, and its info.
abbrev pub phase_of : AssetId → Saving → PhaseId
phase_of asset_id s = get_or 0 (s.iou_asset_phase_id asset_id)

abbrev pub info_of : AssetId → Saving → PhaseInfo
info_of asset_id s = get_or default_phase (lookup (phase_of asset_id s) s.phase_infos)

abbrev pub required_parts : AssetId → Balance → Saving → Option (Balance × Balance)
required_parts asset_id required s =
    redeem_required_balances_in_ratio (phase_of asset_id s) required s.num_of_phases
      s.num_of_phases_left

-- The checks of `check_can_redeem` once it has read what it needs.
abbrev redeem_allowed : Balance → Balance → Balance → Balance → Balance × Balance → Call
redeem_allowed free_share returned unreleased required (free_required, locked_required) =
    let available = wrapping_add free_share returned in
    if leb required available then pure tt else do
      if ltb available free_required
            && not (wrapping_add free_required locked_required == wrapping_add unreleased available)
          then fail "not enough available share asset"
          else pure tt
      if ltb (wrapping_add (wrapping_add returned unreleased) free_share) required
          then fail "exceed allowed redeem limits"
          else pure tt

unfoldable pub check_can_redeem : AssetId → AccountId → Balance → Call
unfolding redeem_required_balances_in_ratio sum_packs wrapping_add wrapping_mul
check_can_redeem asset_id who amount = do
  share_asset_id ← pallet (λ s. s.share_asset_id)
  if share_asset_id == 0 then pure tt else do
    phase_id ← pallet (phase_of asset_id)
    phase_info ← pallet (info_of asset_id)
    returned ← pallet (λ s. s.share_asset_collected who)
    free_share ← free share_asset_id who
    let required = wrapping_mul amount phase_info.exchange
    found ← pallet (required_parts asset_id required)
    parts ← expect found
    list ← pallet (λ s. get_or [] (lookup who s.share_unreleased_list))
    let unreleased =
        sum_packs (λ v. not v.empty && v.asset_id == share_asset_id && v.phase_id == phase_id) 0
          list
    redeem_allowed free_share returned unreleased required parts

-- What the shares returned in advance cover: the parts that are left to deduct, the part of the
-- returned shares to burn, and what stays of them.
pub record Advance : Type 0 where
  pub free_to_deduct : Balance
  pub locked_to_deduct : Balance
  pub to_burn : Balance
  pub collected : Balance

unfoldable pub use_returned : Balance → Balance → Balance → Advance
unfolding wrapping_add
use_returned returned free_required locked_required =
    let left = returned - free_required in
    if returned == 0
    then record {
      free_to_deduct = free_required;
      locked_to_deduct = locked_required;
      to_burn = 0;
      collected = 0;
    }
    else if ltb returned free_required
    then record {
      free_to_deduct = free_required - returned;
      locked_to_deduct = locked_required;
      to_burn = returned;
      collected = 0;
    }
    else if ltb locked_required left
    then record {
      free_to_deduct = 0;
      locked_to_deduct = 0;
      to_burn = wrapping_add free_required locked_required;
      collected = left - locked_required;
    }
    else record {
      free_to_deduct = 0;
      locked_to_deduct = locked_required - left;
      to_burn = wrapping_add free_required left;
      collected = 0;
    }

-- The shares to take from the free balance and from the packs.
pub record Deduct : Type 0 where
  pub from_free : Balance
  pub from_locked : Balance

-- What one side is short of is taken from the other.
unfoldable pub level : Balance → Balance → Balance → Balance → Deduct
unfolding wrapping_add
level free_to_deduct locked_to_deduct unreleased free_share =
    let locked_short = locked_to_deduct - unreleased in
    let locked = if ltb unreleased locked_to_deduct then unreleased else locked_to_deduct in
    let free_short = if ltb 0 free_to_deduct then free_to_deduct - free_share else 0 in
    let taken =
      if ltb 0 free_to_deduct && ltb free_share free_to_deduct
      then free_share
      else free_to_deduct in
    record {
      from_free = wrapping_add taken locked_short;
      from_locked = wrapping_add locked free_short;
    }

module _ (t : Trait Saving) where
  -- The end of `make_redeem`: the burn, the payment and the event.
  unfoldable pub finish_redeem :
      AssetId → AccountId → AssetId → AccountId → Balance → AssetId → Balance → Call
  finish_redeem iou_asset_id who collection_asset_id collection_account amount share_asset_id
        need_to_burn =
      do
        if need_to_burn == 0
            then pure tt
            else Calls.burn t root_origin share_asset_id collection_account need_to_burn
        transfer collection_asset_id collection_account who amount
        deposit_event (Event.staking_redeemed who need_to_burn iou_asset_id amount)

  -- The second half of `make_redeem`, which moves the shares and the savings.
  unfoldable pub settle_redeem :
      AssetId
      → AccountId
      → AssetId
      → AccountId
      → Balance
      → AssetId
      → PhaseId
      → List ShareReleasePack
      → Balance
      → Deduct
      → Call
  unfolding aggregate_phase_unreleased finish_redeem wrapping_add
  settle_redeem iou_asset_id who collection_asset_id collection_account amount share_asset_id
        phase_id unrel_list to_burn d =
      do
        transfer share_asset_id who collection_account d.from_free
        let need_to_burn = wrapping_add to_burn d.from_free
        nl ←
            aggregate_phase_unreleased unrel_list phase_id share_asset_id who
              (some (BalanceChange.negative d.from_locked))
        change λ s. record s { share_unreleased_list = insert who nl s.share_unreleased_list }
        finish_redeem iou_asset_id who collection_asset_id collection_account amount share_asset_id
            need_to_burn

  -- The list of locked packs is taken out of the storage before the checks, and an error leaves it
  -- out.
  unfoldable pub make_redeem : AssetId → AccountId → AssetId → AccountId → Balance → AssetId → Call
  unfolding redeem_required_balances_in_ratio use_returned sum_packs level settle_redeem
      wrapping_add wrapping_mul
  make_redeem iou_asset_id who collection_asset_id collection_account amount share_asset_id = do
    phase_id ← pallet (phase_of iou_asset_id)
    phase_info ← pallet (info_of iou_asset_id)
    returned ← pallet (λ s. s.share_asset_collected who)
    let required = wrapping_mul amount phase_info.exchange
    found ← pallet (required_parts iou_asset_id required)
    parts ← expect found
    let advance = use_returned returned parts.0 parts.1
    change λ s. record s {
      share_asset_collected = update s.share_asset_collected who advance.collected;
    }
    unrel_list ← pallet (λ s. get_or [] (lookup who s.share_unreleased_list))
    change λ s. record s { share_unreleased_list = remove who s.share_unreleased_list }
    let unreleased = sum_packs (λ v. v.phase_id == phase_id && v.owner == who) 0 unrel_list
    free_share ← free share_asset_id who
    ensure (not (ltb 0 advance.free_to_deduct) || leb required (wrapping_add free_share unreleased))
        "total balance doesn't match"
    let d = level advance.free_to_deduct advance.locked_to_deduct unreleased free_share
    ensure
        (wrapping_add (wrapping_add d.from_free d.from_locked) returned
          == wrapping_add parts.0 parts.1)
        "in & out don't match"
    settle_redeem iou_asset_id who collection_asset_id collection_account amount share_asset_id
        phase_id unrel_list advance.to_burn d
