-- ===== src/Loan/Checked.antt =====
-- What the check of each block leaves in the books.
use riochain.Prelude.{◌≡◌, ◌∙◌, refl, false, none, some, [], ◌∷◌, arith, All, ◌==◌, if◌then◌else◌}
use riochain.Prelude.Words.{wrapping_add}
use riochain.Prelude.Maps.{get_or}
use riochain.Prelude.Linked.{LinkedMap, lookup, insert, lookup-insert}
use riochain.Prelude.Outcome.{pure, Keeps, Keeps-then}
use riochain.Assets.Types.{Balance}
use riochain.Assets.Module.{make_transfer_with_event}
use riochain.Assets.Calls.{Chain}
use riochain.Loan.Types.{LoanId, Moment, LoanHealth, Loan, Loans, default_package}
use riochain.Loan.Terms.{
  expiration_penalty, expiration_interest, expire_then_update, check_loan_health, get_ltv,
}
use riochain.Loan.Lending.{check_loan_in_liquidation}
use riochain.Loan.Liquidation.{liquidate_loan}
use riochain.Loan.Blocks.{
  Round, Fees, expire_loan, apply_health, check_loan, check_loans, collect_fees, on_each_block,
}
use riochain.Loan.Calls.{on_initialize}
use riochain.Loan.Totals.{IsKeyed, lookup_id}
use riochain.Loan.Books.{IsKept, insert_same}

-- The loans that are still to be checked are stored as they were read, and have other ids than `k`.
abbrev AreStored : LinkedMap Loan → LinkedMap Loan → Type 0
AreStored rest m = All (λ e. lookup e.0 m ≡ some e.1) rest

abbrev AreOthers : LoanId → LinkedMap Loan → Type 0
AreOthers k = All (λ e. (k == e.0) ≡ false)

AreStored-insert :
    (k : LoanId) (v : Loan) (rest m : LinkedMap Loan)
    → AreOthers k rest
    → AreStored rest m
    → AreStored rest (insert k v m)
AreStored-insert k v [] m others h = tt
AreStored-insert k v ((j, w) ∷ rest) m others h =
    (rw (lookup-insert k j v m, others.0) h.0, AreStored-insert k v rest m others.1 h.1)

abbrev IsHeld : LinkedMap Loan → Chain Loans → Type 0
IsHeld rest c = IsKept c.pallet × AreStored rest c.pallet.loans

-- Storing a loan anew, with the same id and total.
store :
    (rest : LinkedMap Loan) (k : LoanId) (v old : Loan) (l : Loans)
    → AreOthers k rest
    → lookup k l.loans ≡ some old
    → v.id ≡ old.id
    → v.loan_balance_total ≡ old.loan_balance_total
    → IsKept l
    → AreStored rest l.loans
    → IsKept (record l { loans = insert k v l.loans })
      × AreStored rest (insert k v l.loans)
      × (lookup k (insert k v l.loans) ≡ some v)
store rest k v old l others found same total h stored =
    let fresh = insert_same l.next_loan_id k v old l.loans found same total h.0.0 h.1 in
    (
      ((fresh.0, rw fresh.2 h.0.1), fresh.1),
      AreStored-insert k v rest l.loans others stored,
      lookup-insert k k v l.loans ∙ ground arith,
    )

module _ (r : Round) (fees : Fees) (rest : LinkedMap Loan) (k : LoanId) (loan : Loan)
    (c : Chain Loans) (others : AreOthers k rest) (found : lookup k c.pallet.loans ≡ some loan)
    (held : IsHeld rest c) where
  expire_loan-IsHeld : Keeps (expire_loan r fees k loan c) (IsHeld rest)
  unfolding expire_loan expire_then_update liquidate_loan
  expire_loan-IsHeld =
      let l = c.pallet in
      let pack = get_or default_package (l.loan_packages loan.package_id) in
      let penalty = get_or 0 (expiration_penalty loan l.penalty_rate r.btc_price) in
      let interest = get_or 0 (expiration_interest loan pack r.btc_price) in
      let new = expire_then_update loan pack r.now penalty interest in
      let ltv =
        get_or 0 (get_ltv new.collateral_balance_available new.loan_balance_total r.btc_price) in
      let warned : Loan = record new { status = LoanHealth.warning ltv } in
      let sold : Loan = record new { status = LoanHealth.liquidating ltv } in
      let put : Loans = record l { loans = insert k new l.loans } in
      let first = store rest k new loan l others found refl refl held.0 held.1 in
      ground (
        arith,
        first,
        store rest k warned loan l others found refl refl held.0 held.1,
        store rest k sold new put others first.2 refl refl first.0 first.1,
      )

  check_loan-IsHeld : Keeps (check_loan r fees k loan c) (IsHeld rest)
  unfolding check_loan check_loan_health check_loan_in_liquidation apply_health liquidate_loan
  check_loan-IsHeld =
      let l = c.pallet in
      let ltv =
        get_or 0 (get_ltv loan.collateral_balance_available loan.loan_balance_total r.btc_price) in
      let warned : Loan = record loan { status = LoanHealth.warning ltv } in
      let extended : Loan = record loan { status = LoanHealth.extended } in
      let sold : Loan = record loan { status = LoanHealth.liquidating ltv } in
      let same = lookup_id k loan l.loans held.0.0.0 found in
      ground (
        arith,
        same,
        expire_loan-IsHeld,
        store rest k warned loan l others found refl refl held.0 held.1,
        store rest k extended loan l others found refl refl held.0 held.1,
        store rest k sold loan l others found refl refl held.0 held.1,
      )

-- No loan of the list has the id of an earlier one.
abbrev AreApart : LinkedMap Loan → Type 0
AreApart [] = Unit
AreApart ((k, loan) ∷ rest) = AreOthers k rest × AreApart rest

check_loans-IsKept :
    (r : Round) (fees : Fees) (loans : LinkedMap Loan) (c : Chain Loans)
    → AreApart loans
    → IsHeld loans c
    → Keeps (check_loans r fees loans c) (λ c'. IsKept c'.pallet)
unfolding check_loans
check_loans-IsKept r fees [] c apart held = held.0
check_loans-IsKept r fees ((k, loan) ∷ rest) c apart held =
    Keeps-then (λ fees'. check_loans r fees' rest) (IsHeld rest) (λ c'. IsKept c'.pallet)
      (check_loan r fees k loan) c
      (check_loan-IsHeld r fees rest k loan c apart.0 held.1.0 (held.0, held.1.1)) (λ c' h. h.0)
      (λ fees' c' h. check_loans-IsKept r fees' rest c' apart.1 h)

IsKeyed-apart :
    (m : LinkedMap Loan)
    → IsKeyed m
    → AreApart m × ((k : LoanId) → lookup k m ≡ none → AreOthers k m)
IsKeyed-apart [] h = (tt, λ k e. tt)
IsKeyed-apart ((j, v) ∷ m) h =
    let rest = IsKeyed-apart m h.2 in
    ((rest.1 j h.1, rest.0), λ k e. (ground (arith, e), rest.1 k (ground (arith, e))))

collect_fees-IsKept :
    (fees : Balance) (c : Chain Loans)
    → IsKept c.pallet
    → Keeps (collect_fees fees c) (λ c'. IsKept c'.pallet)
unfolding collect_fees make_transfer_with_event
collect_fees-IsKept fees c h = ground arith

AreStored-cons :
    (j : LoanId) (v : Loan) (rest m : LinkedMap Loan)
    → AreOthers j rest
    → AreStored rest m
    → AreStored rest ((j, v) ∷ m)
AreStored-cons j v [] m others h = tt
AreStored-cons j v ((k, w) ∷ rest) m others h =
    (rw others.0 h.0, AreStored-cons j v rest m others.1 h.1)

AreStored-self : (m : LinkedMap Loan) → IsKeyed m → AreStored m m
AreStored-self [] h = tt
AreStored-self ((j, v) ∷ m) h =
    (ground arith, AreStored-cons j v m m ((IsKeyed-apart m h.2).1 j h.1) (AreStored-self m h.2))

on_each_block-IsKept :
    (now : Moment) (c : Chain Loans)
    → IsKept c.pallet
    → Keeps (on_each_block now c) (λ c'. IsKept c'.pallet)
unfolding on_each_block
on_each_block-IsKept now c h =
    let l = c.pallet in
    let r : Round = record {
      now = now;
      btc_price = l.current_btc_price;
      liquidation_thd = l.global_liquidation_threshold;
      warning_thd = l.global_warning_threshold;
    } in
    Keeps-then
      (λ fees.
        let total = wrapping_add fees.0 fees.1 in
        if total == 0 then pure tt else collect_fees total)
      (λ c'. IsKept c'.pallet) (λ c'. IsKept c'.pallet) (check_loans r (0, 0) l.loans) c
      (check_loans-IsKept r (0, 0) l.loans c (IsKeyed-apart l.loans h.0.0).0
        (h, AreStored-self l.loans h.0.0))
      (λ c' h'. h')
      (λ fees c' h'. ground (arith, collect_fees-IsKept (wrapping_add fees.0 fees.1) c' h'))

-- The check of a block leaves the books as right as they were, unless the block panics.
pub on_initialize-IsKept :
    (now : Moment) (c : Chain Loans)
    → IsKept c.pallet
    → Keeps (on_initialize now c) (λ c'. IsKept c'.pallet)
unfolding on_initialize
on_initialize-IsKept now c h = ground (arith, on_each_block-IsKept now c h)
