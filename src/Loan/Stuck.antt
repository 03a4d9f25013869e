-- ===== src/Loan/Stuck.antt =====
-- When the check of a block cannot go through: a loan that has expired with no collateral left.
use riochain.Prelude.Words.{u128_mod, wrapping_add}
use riochain.Prelude.{
  false, some, [], ◌∷◌, arith, ◌==◌, ◌≡◌, refl, ◌≢◌, ◌+◌, ◌<◌, ◌≤◌, if◌then◌else◌, Bool-cases, ==→≡,
  inl, inr,
}
use riochain.Prelude.Maps.{get_or}
use riochain.Prelude.Linked.{LinkedMap, lookup}
use riochain.Prelude.Outcome.{Outcome, ok, err, panic, Ends, Ends->>=, bind_panic, pure}
use riochain.Assets.Types.{Balance}
use riochain.Assets.Calls.{Chain}
use riochain.Loan.Types.{LoanHealth, default_package, LoanId, Moment, Loan, Loans}
use riochain.Loan.Terms.{check_loan_health, expiration_interest, expiration_penalty}
use riochain.Loan.Lending.{check_loan_in_liquidation}
use riochain.Loan.Liquidation.{liquidate_loan}
use riochain.Loan.Blocks.{
  Round, Fees, expire_loan, apply_health, check_loan, check_loans, collect_fees, on_each_block,
}
use riochain.Loan.Liquidating.{contains-append}
use riochain.Loan.Calls.{on_initialize}
use riochain.Loan.Safety.{expire_loan_panics}

-- What ends neither well nor by an error is a panic.
panics : {S A : Type 0} (o : Outcome S A) → Ends o (λ _ _. ⊥) (λ _. ⊥) → o ≡ panic
panics (ok a s) h = absurd h
panics (err e s) h = absurd h
panics panic h = refl

module _ (c₀ : Chain Loans) (now : Moment) (loan_id : LoanId) (loan : Loan)
    (penalty interest : Balance) where
  abbrev round : Round
  round = record {
    now = now;
    btc_price = c₀.pallet.current_btc_price;
    liquidation_thd = c₀.pallet.global_liquidation_threshold;
    warning_thd = c₀.pallet.global_warning_threshold;
  }

  -- What the loop leaves as it was until it comes to the loan.
  abbrev Waits : Chain Loans → Type 0
  Waits c =
      (check_loan_in_liquidation loan_id c.pallet ≡ false)
      × (c.pallet.loan_packages ≡ c₀.pallet.loan_packages)
      × (c.pallet.penalty_rate ≡ c₀.pallet.penalty_rate)

  check_other :
      (fees : Fees) (id : LoanId) (other : Loan) (c : Chain Loans)
      → loan_id ≢ id
      → Waits c
      → Ends (check_loan round fees id other c) (λ _. Waits) (λ _. ⊥)
  unfolding check_loan check_loan_in_liquidation apply_health expire_loan liquidate_loan
  check_other fees id other c ne h =
      ground (arith, contains-append c.pallet.liquidating_loans loan_id id)

  module _
      (health : check_loan_health loan now c₀.pallet.current_btc_price
          c₀.pallet.global_liquidation_threshold c₀.pallet.global_warning_threshold
        ≡ some LoanHealth.expired)
      (interest_due : (let pack =
          get_or default_package (c₀.pallet.loan_packages loan.package_id) in
        expiration_interest loan pack c₀.pallet.current_btc_price ≡ some interest))
      (penalty_due : expiration_penalty loan c₀.pallet.penalty_rate c₀.pallet.current_btc_price
        ≡ some penalty)
      (small : interest + penalty < u128_mod)
      (spent : loan.collateral_balance_available ≤ interest + penalty) where
    check_it :
        (fees : Fees) (c : Chain Loans) → Waits c → check_loan round fees loan_id loan c ≡ panic
    unfolding check_loan apply_health
    check_it fees c h = rw h.0 (
        rw health (
          expire_loan_panics c round fees loan_id loan penalty interest (rw h.1 interest_due)
            (rw h.2 penalty_due) small spent))

    check_all :
        (loans : LinkedMap Loan) (fees : Fees) (c : Chain Loans)
        → lookup loan_id loans ≡ some loan
        → Waits c
        → Ends (check_loans round fees loans c) (λ _ _. ⊥) (λ _. ⊥)
    unfolding check_loans
    check_all [] fees c found h = absurd (ground arith)
    check_all ((id, other) ∷ rest) fees c found h = elim (Bool-cases (id == loan_id)) [
      | inl e ↦
          let same : other ≡ loan = ground arith in
          rw (==→≡ id loan_id e) (
            rw same (
              rw
                (bind_panic (λ fees'. check_loans round fees' rest)
                  (check_loan round fees loan_id loan) c (check_it fees c h))
                tt))
      | inr e ↦
          Ends->>= (λ fees'. check_loans round fees' rest) (λ _ _. ⊥) (λ _. ⊥) (λ _. Waits)
            (check_loan round fees id other) c (check_other fees id other c (ground arith) h)
            (λ fees' c' h'. check_all rest fees' c' (ground arith) h')
    ]

    on_each_block_panics :
        check_loan_in_liquidation loan_id c₀.pallet ≡ false
        → lookup loan_id c₀.pallet.loans ≡ some loan
        → on_each_block now c₀ ≡ panic
    unfolding on_each_block
    on_each_block_panics free found =
        bind_panic
          (λ fees.
            let total = wrapping_add fees.0 fees.1 in
            if total == 0 then pure tt else collect_fees total)
          (check_loans round (0, 0) c₀.pallet.loans) c₀
          (panics _ (check_all c₀.pallet.loans (0, 0) c₀ found (free, refl, refl)))

-- `on_initialize` panics where a loan has expired and its penalty and interest use up its
-- collateral, wherever the loan stands among the stored ones and whatever the others are. The pallet
-- is running, the loan is not in liquidation, its LTV is below the two thresholds and its extension
-- has passed, and penalty and interest, each computed without a division by zero, together fit a
-- `u128` and are at least the collateral that is left.
pub on_initialize_panics :
    (c : Chain Loans) (now : Moment) (loan_id : LoanId) (loan : Loan) (penalty interest : Balance)
    → c.pallet.paused ≡ false
    → lookup loan_id c.pallet.loans ≡ some loan
    → check_loan_in_liquidation loan_id c.pallet ≡ false
    → check_loan_health loan now c.pallet.current_btc_price c.pallet.global_liquidation_threshold
        c.pallet.global_warning_threshold
      ≡ some LoanHealth.expired
    → (let pack = get_or default_package (c.pallet.loan_packages loan.package_id) in
        expiration_interest loan pack c.pallet.current_btc_price ≡ some interest)
    → expiration_penalty loan c.pallet.penalty_rate c.pallet.current_btc_price ≡ some penalty
    → interest + penalty < u128_mod
    → loan.collateral_balance_available ≤ interest + penalty
    → on_initialize now c ≡ panic
unfolding on_initialize
on_initialize_panics c now loan_id loan penalty interest running found free health hi hp small
      spent =
    ground (
      arith,
      on_each_block_panics c now loan_id loan penalty interest health hi hp small spent free found,
    )
