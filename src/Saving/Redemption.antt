-- ===== src/Saving/Redemption.antt =====
-- When a redemption goes through, and what it does.
use riochain.Prelude.{
  ◌+◌, ◌-◌, ◌*◌, ◌≤◌, ◌<◌, ◌≡◌, ◌∙◌, some, [], ◌∷◌, List, arith, All, ◌⊎◌, ◌==◌, ◌&&◌, ◌||◌, not,
  ltb, leb,
}
use riochain.Prelude.Words.{u128_mod, wrapping_add, wrapping_mul}
use riochain.Prelude.Maps.{get_or, update}
use riochain.Prelude.Linked.{lookup, remove}
use riochain.Prelude.Outcome.{Returns, Returns_imp, ensure_passes, ensure, ◌>>◌}
use riochain.Assets.Types.{AccountId, AssetId, Balance}
use riochain.Assets.Calls.{Chain}
use riochain.Saving.Types.{PhaseId, ShareReleasePack, Saving, Env}
use riochain.Saving.Packs.{collect, nothing}
use riochain.Saving.Schedule.{worth, IsMarked, get_total_balance_exact}
use riochain.Saving.Aggregate.{total_of, FillsTerms}
use riochain.Saving.Redeem.{
  phase_of, info_of, required_parts, sum_packs, use_returned, Deduct, settle_redeem, make_redeem,
}
use riochain.Saving.Hooks.{inner_hooks}
use riochain.Saving.Redeeming.{taken, taken_matches}
use riochain.Saving.Settling.{IsPayable, HasSettled, settle_lem}

-- Every pack is locked shares of the owner.
abbrev pub IsOwn : AccountId → AssetId → ShareReleasePack → Type 0
IsOwn who share p = (p.owner ≡ who) × (p.asset_id ≡ share)

-- The packs of a phase that belong to the owner are all of its packs.
sum_packs-total_of :
    (who : AccountId) (share : AssetId) (phase : PhaseId) (acc : Balance)
    (list : List ShareReleasePack)
    → All IsMarked list
    → All (IsOwn who share) list
    → acc + total_of share phase list < u128_mod
    → sum_packs (λ (v : ShareReleasePack). v.phase_id == phase && v.owner == who) acc list
      ≡ acc + total_of share phase list
unfolding sum_packs total_of wrapping_add
sum_packs-total_of who share phase acc [] m own small = omega arith
sum_packs-total_of who share phase acc (p ∷ rest) m own small = ground (
  arith,
  get_total_balance_exact p m.0,
  sum_packs-total_of who share phase acc rest m.1 own.1,
  sum_packs-total_of who share phase (acc + worth p) rest m.1 own.1,
)

module _ (root who : AccountId) (env : Env) (share collected iou : AssetId) (amount : Balance)
    (free_required locked_required : Balance) (c : Chain Saving) where
  abbrev packs : List ShareReleasePack
  packs = get_or [] (lookup who c.pallet.share_unreleased_list)

  abbrev unreleased : Balance
  unreleased = total_of share (phase_of iou c.pallet) packs

  -- What the redemption takes.
  abbrev pub taken_here : Deduct
  taken_here = taken 0 free_required locked_required unreleased (c.assets.free_balance share who)

  -- What the redemption needs of the pallet.
  pub record IsRedeemable : Type 0 where
    pub none_returned : c.pallet.share_asset_collected who ≡ 0
    pub parts :
        required_parts iou (wrapping_mul amount (info_of iou c.pallet).exchange) c.pallet
        ≡ some (free_required, locked_required)
    pub requirement : free_required + locked_required ≡ amount * (info_of iou c.pallet).exchange
    pub small_requirement : amount * (info_of iou c.pallet).exchange < u128_mod
    pub marked : All IsMarked packs
    pub own : All (IsOwn who share) packs
    pub small : unreleased + c.assets.free_balance share who < u128_mod
    pub covered :
        amount * (info_of iou c.pallet).exchange ≤ unreleased + c.assets.free_balance share who
    pub fills :
        (taken_here.from_locked ≡ unreleased)
        ⊎ FillsTerms
            (collect share (phase_of iou c.pallet) packs nothing).left
            (unreleased - taken_here.from_locked)
    pub payable :
        IsPayable root who env share collected taken_here.from_free amount
          c.pallet.collection_account_id c.assets

  -- What the redemption took comes to the requirement, and it has settled.
  abbrev pub Done : PhaseId → Deduct → AssetId → PhaseId → Unit {0} → Chain Saving → Type 0
  Done phase d a' phase' _ c' =
      (d.from_free + d.from_locked ≡ amount * (info_of iou c.pallet).exchange)
      × HasSettled root who env share collected phase d amount packs a' phase' c c'

  -- A redemption goes through, and takes exactly the required shares: the free shares that it takes
  -- are gone from the saver and burnt, the packs of the phase are worth less by the rest, those of
  -- any other phase as much as before, and the saver has the amount of the collected asset. No shares
  -- were returned in advance; the free and the locked part make up the requirement, which is a
  -- balance; the packs are marked right, all of them are locked shares of the saver, and with the
  -- free shares they are a balance that covers the requirement; what is left in the packs fills
  -- their terms, unless nothing is left; both assets exist and may be transferred, the accounts have
  -- the funds and the room, and the root key may burn. The pallet's own hooks run.
  pub make_redeem_succeeds :
      (a' : AssetId) (phase' : PhaseId)
      → IsRedeemable
      → Returns
          (make_redeem
            (inner_hooks root env)
            iou
            who
            collected
            c.pallet.collection_account_id
            amount
            share
            c)
          (Done (phase_of iou c.pallet) taken_here a' phase')
  unfolding make_redeem use_returned
  make_redeem_succeeds a' phase' h =
      let free_share = c.assets.free_balance share who in
      let phase = phase_of iou c.pallet in
      let d = taken_here in
      let m = taken_matches 0 free_required locked_required unreleased free_share in
      let sum : sum_packs (λ (v : ShareReleasePack). v.phase_id == phase && v.owner == who) 0 packs
          ≡ unreleased =
        omega (
          arith,
          sum_packs-total_of who share phase 0 packs h.marked h.own (omega (arith, h.small)),
        ) in
      let matched : d.from_free + d.from_locked ≡ free_required + locked_required =
        ground (arith, m) in
      let fits : d.from_locked ≤ unreleased = ground (arith, m, h.covered, h.requirement) in
      let s = c.pallet in
      let c' : Chain Saving = record c {
        pallet = record s {
          share_asset_collected = update s.share_asset_collected who 0;
          share_unreleased_list = remove who s.share_unreleased_list;
        };
      } in
      let required = wrapping_mul amount (info_of iou s).exchange in
      let covers = not (ltb 0 free_required) || leb required (wrapping_add free_share unreleased) in
      let matches =
        wrapping_add (wrapping_add d.from_free d.from_locked) 0
        == wrapping_add free_required locked_required in
      let settle =
        settle_redeem (inner_hooks root env) iou who collected s.collection_account_id amount share
          phase packs 0 d in
      rw (h.parts, h.none_returned, sum)
        (ensure_passes covers "total balance doesn't match"
          (ensure matches "in & out don't match" >> settle) c' (Done phase d a' phase')
          (ground (arith, h.covered, h.small, h.small_requirement, h.requirement))
          (ensure_passes matches "in & out don't match" settle c' (Done phase d a' phase')
            (ground (arith, matched, h.small_requirement, h.requirement))
            (Returns_imp (Done phase d a' phase') (settle c')
              (settle_lem root who env share collected iou amount phase packs d c' a' phase'
                h.payable h.marked (omega (arith, h.small)) fits h.fills)
              (λ _ c'' done. (matched ∙ h.requirement, done)))))
