-- ===== src/Saving/Aggregate.antt =====
-- Aggregating the packs of a phase changes their worth by the given change, and no other pack.
use riochain.Prelude.{
  ℕ, ◌+◌, ◌-◌, ◌*◌, ◌≤◌, ◌<◌, ◌≡◌, true, some, List, [], ◌∷◌, ◌++◌, arith, sym, All, Bool-cases,
  inl, inr, ◌⊎◌, ◌==◌, ◌&&◌, if◌then◌else◌, ◌/◌,
}
use riochain.Prelude.Words.{u128_mod, wrapping_add}
use riochain.Prelude.Outcome.{err, Returns}
use riochain.Assets.Types.{AccountId, AssetId, Balance}
use riochain.Saving.Types.{PhaseId, ShareReleasePack, BalanceChange}
use riochain.Saving.Packs.{
  Collected, is_of, collect, collect_one, nothing, with_pack, aggregate_phase_unreleased,
}
use riochain.Saving.Schedule.{
  worth, IsMarked, get_total_balance_exact, pack_of, pack_of_lem, portion_bounds,
  create_share_release_pack_lem,
}

-- The worth of the packs of a phase.
unfoldable pub total_of : AssetId → PhaseId → List ShareReleasePack → Balance
total_of a phase [] = 0
total_of a phase (p ∷ rest) =
    (if p.asset_id == a && p.phase_id == phase then worth p else 0) + total_of a phase rest

total_of-append :
    (a : AssetId) (phase : PhaseId) (xs ys : List ShareReleasePack)
    → total_of a phase (xs ++ ys) ≡ total_of a phase xs + total_of a phase ys
unfolding total_of
total_of-append a phase [] ys = omega arith
total_of-append a phase (x ∷ xs) ys = omega (arith, total_of-append a phase xs ys)

-- A balance gives each of a number of terms a part, and rounding up keeps within `u128`.
pub record FillsTerms (terms : ℕ) (balance : Balance) : Type 0 where
  pub pos : 0 < terms
  pub fills : (terms - 1) * terms ≤ balance
  pub room : balance + terms ≤ u128_mod

module _ (a : AssetId) (phase : PhaseId) where
  -- The loop sums the packs of the phase.
  collect_unreleased :
      (list : List ShareReleasePack) (acc : Collected)
      → All IsMarked list
      → acc.unreleased + total_of a phase list < u128_mod
      → (collect a phase list acc).unreleased ≡ acc.unreleased + total_of a phase list
  unfolding collect collect_one total_of is_of wrapping_add
  collect_unreleased [] acc m room = omega arith
  collect_unreleased (p ∷ rest) acc m room = ground (
    arith,
    get_total_balance_exact p m.0,
    collect_unreleased rest (collect_one a phase p acc) m.1,
  )

  -- It keeps the packs of any other phase.
  collect_others :
      (a' : AssetId) (phase' : PhaseId) (list : List ShareReleasePack) (acc : Collected)
      → total_of a' phase' (collect a phase list acc).others
        ≡ total_of a' phase' acc.others
          + (if a' == a && phase' == phase then 0 else total_of a' phase' list)
  unfolding collect collect_one total_of is_of
  collect_others a' phase' [] acc = ground arith
  collect_others a' phase' (p ∷ rest) acc = ground (
    arith,
    collect_others a' phase' rest (collect_one a phase p acc),
    total_of-append a' phase' acc.others (p ∷ []),
  )

  -- The aggregated pack is worth the given balance.
  with_pack_lem :
      {S : Type 0} (who : AccountId) (got : Collected) (balance : Balance) (s : S) (a' : AssetId)
      (phase' : PhaseId)
      → FillsTerms got.left balance
      → Returns (with_pack who a phase got balance s) λ nl s'.
        (s' ≡ s)
        × (total_of a' phase' nl
            ≡ total_of a' phase' got.others + (if a' == a && phase' == phase then balance else 0))
  unfolding with_pack total_of
  with_pack_lem who got balance s a' phase' f =
      let count = got.left in
      let pos = f.pos in
      let fills = f.fills in
      let room = f.room in
      let q = (balance + (count - 1)) / count in
      let b = portion_bounds balance count pos fills in
      let w = pack_of_lem who a phase balance count q pos b.1 b.0 b.2 in
      let p = pack_of who a phase balance count q in
      let major = p.major in
      let p' : ShareReleasePack = record p { major = record major { terms_total = got.total } } in
      ground (
        arith,
        create_share_release_pack_lem who a phase balance count pos fills room,
        total_of-append a' phase' got.others (p' ∷ []),
      )

  same_phase :
      (list : List ShareReleasePack) (a' : AssetId) (phase' : PhaseId)
      → a' == a && phase' == phase ≡ true
      → total_of a' phase' list ≡ total_of a phase list
  same_phase list a' phase' e = ground arith

  -- The theorem below in terms of what the loop has collected.
  withdraw_collected :
      {S : Type 0} (list : List ShareReleasePack) (who : AccountId) (value : Balance) (s : S)
      (a' : AssetId) (phase' : PhaseId)
      → (a' == a && phase' == phase ≡ true
          → total_of a' phase' list ≡ (collect a phase list nothing).unreleased)
      → (value ≡ (collect a phase list nothing).unreleased)
        ⊎ FillsTerms
            (collect a phase list nothing).left
            ((collect a phase list nothing).unreleased - value)
      → ((value ≤ (collect a phase list nothing).unreleased)
          × Returns
              (aggregate_phase_unreleased list phase a who (some (BalanceChange.negative value)) s)
              λ nl s'.
                (s' ≡ s)
                × (total_of a' phase' nl
                    ≡ total_of a' phase' list - (if a' == a && phase' == phase then value else 0)))
        ⊎ (((collect a phase list nothing).unreleased < value)
            × (aggregate_phase_unreleased list phase a who (some (BalanceChange.negative value)) s
                ≡ err "not enought locked balance" s))
  unfolding aggregate_phase_unreleased total_of
  withdraw_collected list who value s a' phase' same (inl all) =
      ground (
        arith,
        same,
        Bool-cases (a' == a && phase' == phase),
        collect_others a' phase' list nothing,
      )
  withdraw_collected list who value s a' phase' same (inr f) =
      let got = collect a phase list nothing in
      let pos = f.pos in
      let fills = f.fills in
      ground (
        arith,
        same,
        Bool-cases (a' == a && phase' == phase),
        collect_others a' phase' list nothing,
        with_pack_lem who got (got.unreleased - value) s a' phase' f,
      )

  -- Taking locked shares out of a phase succeeds exactly if its packs are worth as much. Then the
  -- packs of the phase are worth less by that, and those of any other phase as much as before; else
  -- the call fails. It needs packs that are marked right, a total that is a balance, and terms that
  -- what is left fills, unless nothing is left.
  pub aggregate_withdraws :
      {S : Type 0} (list : List ShareReleasePack) (who : AccountId) (value : Balance) (s : S)
      (a' : AssetId) (phase' : PhaseId)
      → All IsMarked list
      → total_of a phase list < u128_mod
      → (value ≡ total_of a phase list)
        ⊎ FillsTerms (collect a phase list nothing).left (total_of a phase list - value)
      → ((value ≤ total_of a phase list)
          × Returns
              (aggregate_phase_unreleased list phase a who (some (BalanceChange.negative value)) s)
              λ nl s'.
                (s' ≡ s)
                × (total_of a' phase' nl
                    ≡ total_of a' phase' list - (if a' == a && phase' == phase then value else 0)))
        ⊎ ((total_of a phase list < value)
            × (aggregate_phase_unreleased list phase a who (some (BalanceChange.negative value)) s
                ≡ err "not enought locked balance" s))
  aggregate_withdraws list who value s a' phase' m small h =
      let got = collect a phase list nothing in
      let u : got.unreleased ≡ total_of a phase list =
        omega (arith, collect_unreleased list nothing m (omega (arith, small))) in
      rw (← u) (
        withdraw_collected list who value s a' phase'
          (λ e. rw (same_phase list a' phase' e) (sym u)) (rw u h))
