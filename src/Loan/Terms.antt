-- ===== src/Loan/Terms.antt =====
-- The methods of `LoanPackage` and `Loan`: interest, due dates, LTV, and what an expiry costs.
-- `none` is a panic: a division by zero, or an LTV that does not fit a `u64`.
use riochain.Prelude.{ℕ, ◌+◌, ◌*◌, ◌/◌, ◌%◌, ◌^◌, Option, none, some, ltb, leb, ◌==◌, if◌then◌else◌}
use riochain.Prelude.Words.{wrapping_add, wrapping_mul, checked_sub}
use riochain.Prelude.Maps.{get_or}
use riochain.Assets.Types.{Balance}
use riochain.Price.{Price}
use riochain.Loan.Types.{
  interest_rate_prec, ltv_prec, price_prec, terms_unit, due_extend_terms, Ltv, Moment, LoanHealth,
  LoanPackage, Loan,
}

-- `a / b`
abbrev pub checked_div : ℕ → ℕ → Option ℕ
checked_div a b = if b == 0 then none else some (a / b)

unfoldable pub get_interest : LoanPackage → Balance → Balance
unfolding wrapping_mul
get_interest p amount =
    wrapping_mul (wrapping_mul (wrapping_mul amount p.terms) 24) p.interest_rate_hourly
    / interest_rate_prec

-- The due date, and the end of the extension. A moment wraps at 2 ^ 64.
unfoldable pub get_dues : LoanPackage → Moment → Moment × Moment
get_dues p now =
    let due = (now + terms_unit * p.terms * 1000) % 2 ^ 64 in
    (due, (due + due_extend_terms * terms_unit * 1000) % 2 ^ 64)

abbrev to_ltv : ℕ → Option Ltv
to_ltv n = if ltb n (2 ^ 64) then some n else none

abbrev and_then : Option ℕ → (ℕ → Option ℕ) → Option ℕ
and_then none f = none
and_then (some a) f = f a

unfoldable pub get_ltv : Balance → Balance → Price → Option Ltv
unfolding wrapping_mul
get_ltv collateral_amount loan_amount btc_price =
    and_then
      (checked_div (wrapping_mul (wrapping_mul loan_amount price_prec) ltv_prec)
        (wrapping_mul collateral_amount btc_price))
      to_ltv

unfoldable pub expiration_penalty : Loan → ℕ → Price → Option Balance
unfolding wrapping_mul
expiration_penalty loan penalty_rate btc_price =
    checked_div
      (wrapping_mul (wrapping_mul loan.loan_balance_total price_prec) penalty_rate / ltv_prec)
      btc_price

unfoldable pub expiration_interest : Loan → LoanPackage → Price → Option Balance
unfolding get_interest
expiration_interest loan pack btc_price =
    checked_div (wrapping_mul (get_interest pack loan.loan_balance_total) price_prec) btc_price

-- The fee is taken from the collateral, down to zero.
unfoldable pub expire_then_update : Loan → LoanPackage → Moment → Balance → Balance → Loan
unfolding get_dues wrapping_add checked_sub
expire_then_update loan pack now penalty interest =
    let (due, due_extend) = get_dues pack now in
    let fee = wrapping_add interest penalty in
    record loan {
      collateral_balance_available = get_or 0 (checked_sub loan.collateral_balance_available fee);
      due = due;
      due_extend = due_extend;
      status = LoanHealth.well;
    }

abbrev health_at : Ltv → Loan → Moment → Ltv → Ltv → LoanHealth
health_at ltv loan now liquidation warning =
    if leb liquidation ltv
    then LoanHealth.liquidating ltv
    else if leb warning ltv
    then LoanHealth.warning ltv
    else if leb loan.due_extend now
    then LoanHealth.expired
    else if leb loan.due now
    then LoanHealth.extended
    else LoanHealth.well

unfoldable pub check_loan_health : Loan → Moment → Price → Ltv → Ltv → Option LoanHealth
check_loan_health loan now btc_price liquidation warning =
    elim (get_ltv loan.collateral_balance_available loan.loan_balance_total btc_price) [
      | none ↦ none
      | some ltv ↦ some (health_at ltv loan now liquidation warning)
    ]
