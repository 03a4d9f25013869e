-- ===== src/Loan/Totals.antt =====
-- The booked total of loans is the sum of the stored loans.
use riochain.Prelude.{
  ◌+◌, ◌%◌, ◌<◌, ◌≡◌, refl, false, none, some, [], ◌∷◌, arith, Option-cases, inl, inr, ◌⊎◌, ◌==◌,
}
use riochain.Prelude.Words.{u128_mod, wrapping_add, wrapping_sub}
use riochain.Prelude.Maps.{get_or}
use riochain.Prelude.Linked.{LinkedMap, lookup, replace, remove, lookup-remove}
use riochain.Prelude.Outcome.{Leaves}
use riochain.Assets.Types.{AccountId, Balance}
use riochain.Assets.Module.{make_transfer_with_event, burn_free}
use riochain.Assets.Calls
use riochain.Assets.Calls.{Chain, Origin, no_hooks}
use riochain.Loan.Types.{LoanId, LoanPackage, Loan, default_package, Loans}
use riochain.Loan.Terms.{get_interest}
use riochain.Loan.Lending.{
  book_draw, draw_from_loan, close_loan, revert_callback, settle_loan, repay_loan,
}
use riochain.Loan.Credit.{loan_at, pay_out_lem}
use riochain.Loan.Calls.{draw, repay}

abbrev pub sum_loans : LinkedMap Loan → Balance
sum_loans [] = 0
sum_loans ((_, loan) ∷ rest) = loan.loan_balance_total + sum_loans rest

-- Each loan is stored once, under its own id.
abbrev pub IsKeyed : LinkedMap Loan → Type 0
IsKeyed [] = Unit
IsKeyed ((k, loan) ∷ rest) = (loan.id ≡ k) × (lookup k rest ≡ none) × IsKeyed rest

pub sum-replace :
    (k : LoanId) (v old : Loan) (m : LinkedMap Loan)
    → lookup k m ≡ some old
    → sum_loans (replace k v m) + old.loan_balance_total ≡ sum_loans m + v.loan_balance_total
sum-replace k v old [] h = ground arith
sum-replace k v old ((j, w) ∷ m) h = ground (arith, sum-replace k v old m)

sum-remove_other :
    (k : LoanId) (m : LinkedMap Loan) → lookup k m ≡ none → sum_loans (remove k m) ≡ sum_loans m
sum-remove_other k [] h = refl
sum-remove_other k ((j, w) ∷ m) h = ground (arith, sum-remove_other k m)

pub sum-remove :
    (k : LoanId) (old : Loan) (m : LinkedMap Loan)
    → IsKeyed m
    → lookup k m ≡ some old
    → sum_loans (remove k m) + old.loan_balance_total ≡ sum_loans m
sum-remove k old [] d h = ground arith
sum-remove k old ((j, w) ∷ m) d h = ground (arith, sum-remove k old m, sum-remove_other k m)

lookup-replace_other :
    (k j : LoanId) (v : Loan) (m : LinkedMap Loan)
    → (k == j) ≡ false
    → lookup j (replace k v m) ≡ lookup j m
lookup-replace_other k j v [] ne = refl
lookup-replace_other k j v ((i, w) ∷ m) ne = ground (arith, lookup-replace_other k j v m)

pub replace-IsKeyed :
    (k : LoanId) (v : Loan) (m : LinkedMap Loan) → v.id ≡ k → IsKeyed m → IsKeyed (replace k v m)
replace-IsKeyed k v [] e d = d
replace-IsKeyed k v ((j, w) ∷ m) e d =
    ground (arith, replace-IsKeyed k v m, lookup-replace_other k j v m)

remove-IsKeyed : (k : LoanId) (m : LinkedMap Loan) → IsKeyed m → IsKeyed (remove k m)
remove-IsKeyed k [] d = d
remove-IsKeyed k ((j, w) ∷ m) d = ground (arith, remove-IsKeyed k m, lookup-remove {V = Loan} k j m)

pub lookup_id :
    (k : LoanId) (v : Loan) (m : LinkedMap Loan) → IsKeyed m → lookup k m ≡ some v → v.id ≡ k
lookup_id k v [] d h = ground arith
lookup_id k v ((j, w) ∷ m) d h = ground (arith, lookup_id k v m)

-- The booked total is the sum of the stored loans, as far as a balance goes.
abbrev pub IsBooked : Loans → Type 0
IsBooked l = IsKeyed l.loans × (l.total_loan ≡ sum_loans l.loans % u128_mod)

book_draw-IsBooked :
    (loan_id : LoanId) (amount interest : Balance) (loan : Loan) (l : Loans)
    → amount < u128_mod
    → lookup loan_id l.loans ≡ some loan
    → loan.loan_balance_total + amount < u128_mod
    → IsBooked l
    → IsBooked (book_draw loan_id amount interest l)
unfolding book_draw wrapping_add
book_draw-IsBooked loan_id amount interest loan l small found room h =
    let more : Loan = record loan {
      loan_balance_total = wrapping_add loan.loan_balance_total amount;
    } in
    ground (
      arith,
      sum-replace loan_id more loan l.loans,
      replace-IsKeyed loan_id more l.loans,
      lookup_id loan_id loan l.loans,
    )

module _ (root : AccountId) where
  draw_from_loan-IsBooked :
      (who : AccountId) (loan_id : LoanId) (amount : Balance) (c : Chain Loans)
      → amount < u128_mod
      → (loan_at loan_id c.pallet).loan_balance_total + amount < u128_mod
      → IsBooked c.pallet
      → Leaves (draw_from_loan (no_hooks root) who loan_id amount c) (λ c'. IsBooked c'.pallet)
  unfolding draw_from_loan
  draw_from_loan-IsBooked who loan_id amount c small room h =
      let l = c.pallet in
      let loan = loan_at loan_id l in
      let pack = get_or default_package (l.loan_packages loan.package_id) in
      let interest = get_interest pack amount in
      ground (
        arith,
        pay_out_lem root pack l.profit_pool who interest (wrapping_sub amount interest) c,
        book_draw-IsBooked loan_id amount interest loan l,
      )

  -- Drawing keeps the books right, whatever the call's result: if each loan is stored once under its
  -- id and the booked total is the sum of the stored loans, as far as a balance goes, they still are,
  -- where the loan has room for the amount and the asset hooks do nothing.
  pub draw-IsBooked :
      (origin : Origin) (loan_id : LoanId) (amount : Balance) (c : Chain Loans)
      → amount < u128_mod
      → (loan_at loan_id c.pallet).loan_balance_total + amount < u128_mod
      → IsBooked c.pallet
      → Leaves (draw (no_hooks root) origin loan_id amount c) (λ c'. IsBooked c'.pallet)
  unfolding draw
  draw-IsBooked origin loan_id amount c small room h = elim (Option-cases origin.signer) [
    | inl e ↦ ground arith
    | inr (who, e) ↦ ground (arith, draw_from_loan-IsBooked who loan_id amount c small room h)
  ]

pub close_loan-IsBooked :
    (loan : Loan) (loan_id : LoanId) (l : Loans)
    → lookup loan_id l.loans ≡ some loan
    → loan.loan_balance_total < u128_mod
    → IsBooked l
    → IsBooked (close_loan loan loan_id l)
      × (lookup loan_id (close_loan loan loan_id l).loans ≡ none)
unfolding close_loan wrapping_sub
close_loan-IsBooked loan loan_id l found small h = ground (
  arith,
  lookup_id loan_id loan l.loans,
  remove-IsKeyed loan_id l.loans,
  sum-remove loan_id loan l.loans,
  lookup-remove {V = Loan} loan_id loan_id l.loans,
)

pub revert_callback-IsBooked :
    (loan : Loan) (l : Loans)
    → lookup loan.id l.loans ≡ none
    → IsBooked l
    → IsBooked (revert_callback loan l)
unfolding revert_callback wrapping_add
revert_callback-IsBooked loan l gone h = ground arith

module _ (root : AccountId) where
  pub settle_loan_cases :
      (loan : Loan) (pack : LoanPackage) (shop : AccountId) (c : Chain Loans)
      → Leaves
          (settle_loan (no_hooks root) loan pack shop c)
          λ c'. (c'.pallet ≡ c.pallet) ⊎ (c'.pallet ≡ revert_callback loan c.pallet)
  unfolding settle_loan Calls.burn make_transfer_with_event burn_free
  settle_loan_cases loan pack shop c = ground arith

  repay_loan-IsBooked :
      (who : AccountId) (loan_id : LoanId) (c : Chain Loans)
      → (loan_at loan_id c.pallet).loan_balance_total < u128_mod
      → IsBooked c.pallet
      → Leaves (repay_loan (no_hooks root) who loan_id c) (λ c'. IsBooked c'.pallet)
  unfolding repay_loan
  repay_loan-IsBooked who loan_id c small h =
      let l = c.pallet in
      let loan = loan_at loan_id l in
      let pack = get_or default_package (l.loan_packages loan.package_id) in
      let closed : Chain Loans = record c { pallet = close_loan loan loan_id l } in
      ground (
        arith,
        lookup_id loan_id loan l.loans,
        close_loan-IsBooked loan loan_id l,
        revert_callback-IsBooked loan closed.pallet,
        settle_loan_cases loan pack l.pawn_shop closed,
      )

  -- Repaying keeps the books right, whatever the call's result: if each loan is stored once under
  -- its id and the booked total is the sum of the stored loans, as far as a balance goes, they still
  -- are, also where a transfer fails and the bookings are undone, if the asset hooks do nothing.
  repay-IsBooked :
      (origin : Origin) (loan_id : LoanId) (c : Chain Loans)
      → (loan_at loan_id c.pallet).loan_balance_total < u128_mod
      → IsBooked c.pallet
      → Leaves (repay (no_hooks root) origin loan_id c) (λ c'. IsBooked c'.pallet)
  unfolding repay
  repay-IsBooked origin loan_id c small h = elim (Option-cases origin.signer) [
    | inl e ↦ ground arith
    | inr (who, e) ↦ ground (arith, repay_loan-IsBooked who loan_id c small h)
  ]
