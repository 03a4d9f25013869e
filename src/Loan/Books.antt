-- ===== src/Loan/Books.antt =====
-- The books of the loans, with the ids in use below the next one: an invariant of the bookings.
use riochain.Prelude.{◌<◌, ◌≤◌, ◌≡◌, refl, none, some, [], ◌∷◌, arith, All}
use riochain.Prelude.Words.{u128_mod, wrapping_add}
use riochain.Prelude.Linked.{LinkedMap, lookup, replace, remove, insert}
use riochain.Assets.Types.{Balance}
use riochain.Loan.Types.{LoanId, Loan, Loans}
use riochain.Loan.Lending.{close_loan, revert_callback}
use riochain.Loan.Apply.{open_loan}
use riochain.Loan.Totals.{
  IsKeyed, IsBooked, sum_loans, sum-replace, replace-IsKeyed, lookup_id, close_loan-IsBooked,
}

-- Each stored loan fits a `u128`, and its id is below `next`.
abbrev pub IsFit : LoanId → LinkedMap Loan → Type 0
IsFit next = All (λ e. (e.1.loan_balance_total < u128_mod) × (e.0 < next))

pub IsFit-lookup :
    (next k : LoanId) (v : Loan) (m : LinkedMap Loan)
    → IsFit next m
    → lookup k m ≡ some v
    → (v.loan_balance_total < u128_mod) × (k < next)
IsFit-lookup next k v [] h e = ground arith
IsFit-lookup next k v ((j, w) ∷ m) h e = ground (arith, IsFit-lookup next k v m)

pub IsFit-fresh :
    (next k : LoanId) (m : LinkedMap Loan) → IsFit next m → next ≤ k → lookup k m ≡ none
IsFit-fresh next k [] h e = refl
IsFit-fresh next k ((j, w) ∷ m) h e = ground (arith, IsFit-fresh next k m)

IsFit-replace :
    (next k : LoanId) (v : Loan) (m : LinkedMap Loan)
    → v.loan_balance_total < u128_mod
    → IsFit next m
    → IsFit next (replace k v m)
IsFit-replace next k v [] small h = tt
IsFit-replace next k v ((j, w) ∷ m) small h = ground (arith, IsFit-replace next k v m)

IsFit-remove : (next k : LoanId) (m : LinkedMap Loan) → IsFit next m → IsFit next (remove k m)
IsFit-remove next k [] h = tt
IsFit-remove next k ((j, w) ∷ m) h = ground (arith, IsFit-remove next k m)

pub IsFit-later :
    (next later : LoanId) (m : LinkedMap Loan) → next ≤ later → IsFit next m → IsFit later m
IsFit-later next later [] le h = tt
IsFit-later next later ((j, w) ∷ m) le h = ground (arith, IsFit-later next later m)

-- The booked total is the sum of the loans, which fit.
abbrev pub IsKept : Loans → Type 0
IsKept l = IsBooked l × IsFit l.next_loan_id l.loans

pub put_loan-IsKept :
    (k : LoanId) (v old : Loan) (more : Balance) (l : Loans)
    → lookup k l.loans ≡ some old
    → v.id ≡ old.id
    → v.loan_balance_total ≡ wrapping_add old.loan_balance_total more
    → IsKept l
    → IsKept (record l { loans = insert k v l.loans; total_loan = wrapping_add l.total_loan more })
unfolding wrapping_add
put_loan-IsKept k v old more l found same grown h = ground (
  arith,
  sum-replace k v old l.loans,
  replace-IsKeyed k v l.loans,
  lookup_id k old l.loans,
  IsFit-replace l.next_loan_id k v l.loans,
)

-- A loan that is stored anew, with the same id and total.
pub insert_same :
    (next k : LoanId) (v old : Loan) (m : LinkedMap Loan)
    → lookup k m ≡ some old
    → v.id ≡ old.id
    → v.loan_balance_total ≡ old.loan_balance_total
    → IsKeyed m
    → IsFit next m
    → IsKeyed (insert k v m) × IsFit next (insert k v m) × (sum_loans (insert k v m) ≡ sum_loans m)
insert_same next k v old m found same total keyed fit = ground (
  arith,
  sum-replace k v old m,
  replace-IsKeyed k v m,
  lookup_id k old m,
  IsFit-lookup next k old m,
  IsFit-replace next k v m,
)

pub close_loan-IsKept :
    (loan : Loan) (k : LoanId) (l : Loans)
    → lookup k l.loans ≡ some loan
    → IsKept l
    → IsKept (close_loan loan k l) × (lookup k (close_loan loan k l).loans ≡ none)
unfolding close_loan
close_loan-IsKept loan k l found h =
    let closed =
      close_loan-IsBooked loan k l found (IsFit-lookup l.next_loan_id k loan l.loans h.1 found).0
        h.0 in
    ((closed.0, IsFit-remove l.next_loan_id loan.id l.loans h.1), closed.1)

pub revert_callback-IsKept :
    (loan : Loan) (l : Loans)
    → lookup loan.id l.loans ≡ none
    → loan.loan_balance_total < u128_mod
    → loan.id < l.next_loan_id
    → IsKept l
    → IsKept (revert_callback loan l)
unfolding revert_callback wrapping_add
revert_callback-IsKept loan l gone small below h = ground arith

pub open_loan-IsKept :
    (loan : Loan) (interest : Balance) (l : Loans)
    → lookup loan.id l.loans ≡ none
    → loan.loan_balance_total < u128_mod
    → loan.id < l.next_loan_id
    → IsKept l
    → IsKept (open_loan loan interest l)
unfolding open_loan wrapping_add
open_loan-IsKept loan interest l gone small below h = ground arith
