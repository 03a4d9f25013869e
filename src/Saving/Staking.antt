-- ===== src/Saving/Staking.antt =====
-- Staking keeps within the quota of the current phase and within what was offered.
use riochain.Prelude.{
  ℕ, zero, suc, ◌+◌, ◌^◌, ◌≤◌, ◌<◌, ◌≡◌, refl, true, none, some, arith, ltb, Option-cases,
  Bool-cases, inl, inr, ◌⊎◌, length,
}
use riochain.Prelude.Words.{u128_mod, wrapping_add, wrapping_sub, checked_add}
use riochain.Prelude.Maps.{exists, get_or}
use riochain.Prelude.Linked.{lookup}
use riochain.Prelude.Outcome.{Ends, Ends->>=, Ends_of_Keeps, abort}
use riochain.Assets.Types.{AccountId, Balance}
use riochain.Assets.Calls.{Chain, Trait}
use riochain.Saving.Types.{PhaseInfo, default_phase, Saving}
use riochain.Saving.Phases.{
  Split, split_quota, shares_release_by_phase_change, shift_next_phase, stake_in_phase, stake_split,
  stake_once, create_staking_fuel, create_staking,
}
use riochain.Saving.Steady.{IsQuiet}
use riochain.Saving.Release.{Same, shares_release-IsSteady, stake_in_phase-IsSteady}

abbrev quota_of : Saving → Balance
quota_of s = let info = get_or default_phase (lookup s.current_phase_id s.phase_infos) in info.quota

-- The quota that is used is within the quota of the current phase.
abbrev pub IsWithin : Chain Saving → Type 0
IsWithin c = c.pallet.quota_used ≤ quota_of c.pallet

-- The next phase is a known one, and its quota is unused.
abbrev pub Advanced : Chain Saving → Chain Saving → Type 0
Advanced c c' =
    (c'.pallet.phase_infos ≡ c.pallet.phase_infos)
    × (c'.pallet.current_phase_id ≡ c.pallet.current_phase_id + 1)
    × (exists (lookup (c.pallet.current_phase_id + 1) c.pallet.phase_infos) ≡ true)

-- The two parts of a balance make it up, and if the phase is not full, the balance fits.
split_quota_lem :
    (balance quota used : Balance)
    → used ≤ quota
    → used + balance < u128_mod
    → ((split_quota balance quota used (used + balance)).fits
          + (split_quota balance quota used (used + balance)).next_phase_iou
        ≡ balance)
      × (((split_quota balance quota used (used + balance)).next_phase ≡ true)
          ⊎ (used + balance ≤ quota))
unfolding split_quota wrapping_sub
split_quota_lem balance quota used fits small = ground arith

module _ (t : Trait Saving) (q : (s₀ : Saving) → IsQuiet (Same s₀) t) where
  shift_lem :
      (c₀ c : Chain Saving)
      → Same c₀.pallet c.pallet
      → IsWithin c₀
      → Ends
          (shift_next_phase t c₀.pallet.current_phase_id c)
          (λ shifted c'. IsWithin c' × ((shifted ≡ none) ⊎ Advanced c₀ c'))
          IsWithin
  unfolding shift_next_phase
  shift_lem c₀ c same within =
      let at = c₀.pallet.current_phase_id in
      elim (Bool-cases (ltb (at + 1) (2 ^ 32))) [
        | inl e ↦ rw e (
            Ends_of_Keeps _ _ _ (λ c'. Same c₀.pallet c'.pallet) (shares_release_by_phase_change t)
              c ((shares_release-IsSteady t c₀.pallet (q c₀.pallet)).at c same)
              (λ c' same'. ground arith)
              (λ _ c' same'. ground (arith, Option-cases (lookup (at + 1) c'.pallet.phase_infos))))
        | inr e ↦ rw e tt
      ]

  -- What a saving in one phase ends in.
  stake_split_lem :
      (who : AccountId) (info : PhaseInfo) (split : Split) (c : Chain Saving)
      → IsWithin c
      → Ends
          (stake_split t who c.pallet.current_phase_id info split c)
          (λ a c'.
            IsWithin c'
            × (a.0 ≡ split.fits)
            × ((a.1 ≡ none) ⊎ (a.1 ≡ some split.next_phase_iou) × Advanced c c'))
          IsWithin
  unfolding stake_split
  stake_split_lem who info split c within =
      Ends_of_Keeps _ _ _ (λ c'. Same c.pallet c'.pallet) (stake_in_phase t who info split.fits) c
        ((stake_in_phase-IsSteady t c.pallet (q c.pallet) who info split.fits).at c
          (refl, refl, refl))
        (λ c' same. ground arith)
        (λ _ c' same. elim (Bool-cases split.next_phase) [
          | inl e ↦ rw e (
              Ends->>= _ _ _ (λ shifted c'. IsWithin c' × ((shifted ≡ none) ⊎ Advanced c c'))
                (shift_next_phase t c.pallet.current_phase_id) c' (shift_lem c c' same within)
                (λ shifted c'' h. ground (arith, Option-cases shifted)))
          | inr e ↦ rw e (ground arith)
        ])

  pub stake_once_lem :
      (who : AccountId) (balance : Balance) (c : Chain Saving)
      → IsWithin c
      → Ends
          (stake_once t who balance c)
          (λ a c'. IsWithin c' × (a.0 + get_or 0 a.1 ≤ balance) × ((a.1 ≡ none) ⊎ Advanced c c'))
          IsWithin
  unfolding stake_once checked_add
  stake_once_lem who balance c within =
      let found = lookup c.pallet.current_phase_id c.pallet.phase_infos in
      let info = get_or default_phase found in
      let used = c.pallet.quota_used in
      let split = split_quota balance info.quota used (used + balance) in
      let p = c.pallet in
      let put : Chain Saving = record c { pallet = record p { quota_used = used + balance } } in
      ground (
        arith,
        Option-cases found,
        split_quota_lem balance info.quota used within,
        stake_split_lem who info split c within,
        stake_split_lem who info split put,
      )

  create_staking_fuel-IsWithin :
      (fuel : ℕ) (who : AccountId) (balance : Balance) (c : Chain Saving)
      → balance < u128_mod
      → IsWithin c
      → Ends
          (create_staking_fuel t abort fuel who balance c)
          (λ staked c'. IsWithin c' × (staked ≤ balance))
          IsWithin
  unfolding create_staking_fuel wrapping_add
  create_staking_fuel-IsWithin zero who balance c small within = tt
  create_staking_fuel-IsWithin (suc fuel) who balance c small within =
      Ends->>= _ _ _ _ (stake_once t who balance) c (stake_once_lem who balance c within) λ a c' h.
        elim (Option-cases a.1) [
          | inl e ↦ rw e (h.0, omega (arith, h.1))
          | inr (next, e) ↦
              let fits : a.0 + next ≤ balance = rw e at h.1 in
              rw e (
                Ends->>= _ _ _ (λ staked c''. IsWithin c'' × (staked ≤ next))
                  (create_staking_fuel t abort fuel who next) c'
                  (create_staking_fuel-IsWithin fuel who next c' (omega (arith, fits, small)) h.0)
                  (λ more c'' g. (g.0, ground (arith, g.1))))
        ]

  -- Staking keeps the used quota within the quota of the current phase, and stakes no more than was
  -- offered. It holds where the hooks on minting leave the phases alone, whether the call returns or
  -- fails, for an offer that is a balance; it says nothing of a panic, as of a quota that overflows.
  pub create_staking-IsWithin :
      (who : AccountId) (balance : Balance) (c : Chain Saving)
      → balance < u128_mod
      → IsWithin c
      → Ends
          (create_staking t who balance c)
          (λ staked c'. IsWithin c' × (staked ≤ balance))
          IsWithin
  unfolding create_staking
  create_staking-IsWithin who balance c small within =
      create_staking_fuel-IsWithin (length c.pallet.phase_infos + 1) who balance c small within
