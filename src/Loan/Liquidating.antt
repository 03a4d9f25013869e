-- ===== src/Loan/Liquidating.antt =====
-- The list of the loans in liquidation.
use riochain.Prelude.Words.{wrapping_add}
use riochain.Prelude.{
  if◌then◌else◌, ◌==◌, ◌≡◌, ◌≢◌, false, List, [], ◌∷◌, ◌++◌, arith, contains, IsDistinct,
}
use riochain.Prelude.Linked.{LinkedMap}
use riochain.Prelude.Outcome.{pure, Keeps, Keeps->>=}
use riochain.Assets.Types.{Balance}
use riochain.Assets.Module.{make_transfer_with_event}
use riochain.Assets.Calls.{Chain}
use riochain.Loan.Types.{LoanId, Moment, Loan, Loans}
use riochain.Loan.Lending.{check_loan_in_liquidation}
use riochain.Loan.Liquidation.{liquidate_loan}
use riochain.Loan.Blocks.{
  Round, Fees, expire_loan, apply_health, check_loan, check_loans, collect_fees, on_each_block,
}
use riochain.Loan.Calls.{on_initialize}

pub contains-append :
    (xs : List LoanId) (x y : LoanId)
    → contains xs x ≡ false
    → x ≢ y
    → contains (xs ++ y ∷ []) x ≡ false
contains-append [] x y h ne = ground arith
contains-append (z ∷ xs) x y h ne = ground (arith, contains-append xs x y)

IsDistinct-append :
    (xs : List LoanId) (y : LoanId)
    → contains xs y ≡ false
    → IsDistinct xs
    → IsDistinct (xs ++ y ∷ [])
IsDistinct-append [] y h d = ground arith
IsDistinct-append (x ∷ xs) y h d = ground (arith, IsDistinct-append xs y, contains-append xs x y)

-- No loan is listed twice.
abbrev pub IsListedOnce : Chain Loans → Type 0
IsListedOnce c = IsDistinct c.pallet.liquidating_loans

check_loan-IsListedOnce :
    (r : Round) (fees : Fees) (loan_id : LoanId) (loan : Loan) (c : Chain Loans)
    → IsListedOnce c
    → Keeps (check_loan r fees loan_id loan c) IsListedOnce
unfolding check_loan check_loan_in_liquidation apply_health expire_loan liquidate_loan
check_loan-IsListedOnce r fees loan_id loan c h =
    ground (arith, IsDistinct-append c.pallet.liquidating_loans loan_id)

check_loans-IsListedOnce :
    (r : Round) (fees : Fees) (loans : LinkedMap Loan) (c : Chain Loans)
    → IsListedOnce c
    → Keeps (check_loans r fees loans c) IsListedOnce
unfolding check_loans
check_loans-IsListedOnce r fees [] c h = h
check_loans-IsListedOnce r fees ((loan_id, loan) ∷ rest) c h =
    Keeps->>= (λ fees'. check_loans r fees' rest) IsListedOnce (check_loan r fees loan_id loan) c
      (check_loan-IsListedOnce r fees loan_id loan c h)
      (λ fees' c' h'. check_loans-IsListedOnce r fees' rest c' h')

collect_fees-IsListedOnce :
    (fees : Balance) (c : Chain Loans) → IsListedOnce c → Keeps (collect_fees fees c) IsListedOnce
unfolding collect_fees make_transfer_with_event
collect_fees-IsListedOnce fees c h = ground arith

on_each_block-IsListedOnce :
    (now : Moment) (c : Chain Loans) → IsListedOnce c → Keeps (on_each_block now c) IsListedOnce
unfolding on_each_block
on_each_block-IsListedOnce now c h =
    let l = c.pallet in
    let r : Round = record {
      now = now;
      btc_price = l.current_btc_price;
      liquidation_thd = l.global_liquidation_threshold;
      warning_thd = l.global_warning_threshold;
    } in
    Keeps->>=
      (λ fees.
        let total = wrapping_add fees.0 fees.1 in
        if total == 0 then pure tt else collect_fees total)
      IsListedOnce (check_loans r (0, 0) l.loans) c (check_loans-IsListedOnce r (0, 0) l.loans c h)
      (λ fees c' h'. ground (arith, collect_fees-IsListedOnce (wrapping_add fees.0 fees.1) c' h'))

-- The check of a block never lists a loan for liquidation twice, whatever loans are stored, also
-- over many loans: if no loan is listed twice before `on_initialize`, none is afterwards, unless
-- the block panics.
pub on_initialize-IsListedOnce :
    (now : Moment) (c : Chain Loans) → IsListedOnce c → Keeps (on_initialize now c) IsListedOnce
unfolding on_initialize
on_initialize-IsListedOnce now c h = ground (arith, on_each_block-IsListedOnce now c h)
