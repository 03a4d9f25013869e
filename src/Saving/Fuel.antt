-- ===== src/Saving/Fuel.antt =====
-- The recursion of staking ends: each round enters a later phase, and there are no more rounds than
-- phases.
use riochain.Prelude.{
  ℕ, zero, suc, ◌+◌, ◌≤◌, ◌<◌, ◌≡◌, refl, ap, true, [], ◌∷◌, arith, ltb, Option-cases, inl, inr,
  if◌then◌else◌, length,
}
use riochain.Prelude.Words.{wrapping_add}
use riochain.Prelude.Maps.{exists}
use riochain.Prelude.Linked.{LinkedMap, lookup}
use riochain.Prelude.Outcome.{Outcome, ok, err, panic, Action, bind_cong, abort}
use riochain.Assets.Types.{AccountId, Balance}
use riochain.Assets.Calls.{Chain, Trait}
use riochain.Saving.Types.{PhaseId, PhaseInfo, Saving}
use riochain.Saving.Phases.{stake_once, create_staking_fuel, create_staking}
use riochain.Saving.Steady.{IsQuiet}
use riochain.Saving.Release.{Same}
use riochain.Saving.Staking.{IsWithin, Advanced, stake_once_lem}

-- The phases after a phase.
abbrev later : PhaseId → LinkedMap PhaseInfo → ℕ
later phase [] = 0
later phase ((id, _) ∷ rest) = (if ltb phase id then 1 else 0) + later phase rest

later-le-length : (phase : PhaseId) (m : LinkedMap PhaseInfo) → later phase m ≤ length m
later-le-length phase [] = ground arith
later-le-length phase ((id, _) ∷ rest) = ground (arith, later-le-length phase rest)

later_suc : (phase : PhaseId) (m : LinkedMap PhaseInfo) → later (phase + 1) m ≤ later phase m
later_suc phase [] = ground arith
later_suc phase ((id, _) ∷ rest) = ground (arith, later_suc phase rest)

later_drops :
    (phase : PhaseId) (m : LinkedMap PhaseInfo)
    → exists (lookup (phase + 1) m) ≡ true
    → later (phase + 1) m < later phase m
later_drops phase [] known = ground arith
later_drops phase ((id, _) ∷ rest) known =
    ground (arith, later_suc phase rest, later_drops phase rest)

module _ (t : Trait Saving) (q : (s₀ : Saving) → IsQuiet (Same s₀) t) where
  abbrev left : Chain Saving → ℕ
  left c = later c.pallet.current_phase_id c.pallet.phase_infos

  Advanced-left : (c c' : Chain Saving) → Advanced c c' → left c' < left c
  Advanced-left c c' h =
      rw (h.0, h.1) (later_drops c.pallet.current_phase_id c.pallet.phase_infos h.2)

  fuel_enough :
      (out out' : Action (Chain Saving) Balance) (fuel fuel' : ℕ) (who : AccountId)
      (balance : Balance) (c : Chain Saving)
      → left c < fuel
      → left c < fuel'
      → IsWithin c
      → create_staking_fuel t out fuel who balance c
        ≡ create_staking_fuel t out' fuel' who balance c
  unfolding create_staking_fuel
  fuel_enough out out' zero fuel' who balance c e e' within = ground arith
  fuel_enough out out' (suc fuel) zero who balance c e e' within = ground arith
  fuel_enough out out' (suc fuel) (suc fuel') who balance c e e' within =
      bind_cong _ _ _ IsWithin (stake_once t who balance) c
        (stake_once_lem t q who balance c within)
        λ a c' h. elim (Option-cases a.1) [
          | inl n ↦ rw n refl
          | inr (next, s) ↦
              let d = Advanced-left c c' (ground (arith, h.2, s)) in
              rw s (
                ap
                  (λ (o : Outcome (Chain Saving) Balance).
                    elim o as (λ _. Outcome (Chain Saving) Balance) [
                      | ok more s' ↦ ok (wrapping_add a.0 more) s'
                      | err x s' ↦ err x s'
                      | panic ↦ panic
                    ])
                  (fuel_enough out out' fuel fuel' who next c' (omega (arith, d, e))
                    (omega (arith, d, e')) h.0))
        ]

  -- The recursion of `create_staking` ends: with any fuel above the number of phases, the call comes
  -- to the same, whatever is made of running out. So it never runs out. The hooks on minting leave
  -- the phases alone, and the used quota is within the quota of the current phase.
  pub create_staking_total :
      (out : Action (Chain Saving) Balance) (fuel : ℕ) (who : AccountId) (balance : Balance)
      (c : Chain Saving)
      → length c.pallet.phase_infos < fuel
      → IsWithin c
      → create_staking_fuel t out fuel who balance c ≡ create_staking t who balance c
  unfolding create_staking
  create_staking_total out fuel who balance c enough within =
      let fits = later-le-length c.pallet.current_phase_id c.pallet.phase_infos in
      fuel_enough out abort fuel (length c.pallet.phase_infos + 1) who balance c
        (omega (arith, fits, enough)) (omega (arith, fits)) within
