-- ===== src/Loan/Granted.antt =====
-- What an application leaves in the books, with the ids in use below the next one.
use riochain.Prelude.{◌+◌, ◌%◌, ◌^◌, ◌<◌, ◌≡◌, arith}
use riochain.Prelude.Words.{u128_mod, wrapping_sub, wrapping_mul}
use riochain.Prelude.Maps.{get_or}
use riochain.Prelude.Outcome.{
  Outcome, ok, err, panic, Leaves, Leaves->>=, Keeps, Keeps_of_Leaves, Ends, ◌>>=◌,
}
use riochain.Assets.Types.{AccountId, Balance}
use riochain.Assets.Calls.{Chain, no_hooks}
use riochain.Loan.Types.{
  LoanPackageId, CollateralLoan, LoanPackage, Loan, Loans, default_package, Moment, LoanHealth,
}
use riochain.Loan.Terms.{get_interest, get_dues}
use riochain.Loan.Packages.{get_collateral_loan, get_next_loan_id}
use riochain.Loan.Lending.{transfer}
use riochain.Loan.Apply.{lend, grant_loan, apply_for_loan}
use riochain.Loan.Opening.{fund_loan_lem, numbered}
use riochain.Loan.Books.{IsKept, IsFit-fresh, IsFit-later, open_loan-IsKept}
use riochain.Loan.Kept.{transfer_keeps}

-- What the loan comes to fits, if the amount asked for does, and nothing is written.
get_collateral_loan_fits :
    (collateral loan : Balance) (c : Chain Loans)
    → loan < u128_mod
    → Ends
        (get_collateral_loan collateral loan c)
        (λ a c'. (a.loan_amount < u128_mod) × (c' ≡ c))
        (λ c'. c' ≡ c)
unfolding get_collateral_loan wrapping_mul
get_collateral_loan_fits collateral loan c small = ground arith

module _ (root : AccountId) (now : Moment) where
  lend-IsKept :
      (who : AccountId) (package_id : LoanPackageId) (pack : LoanPackage) (shop pool : AccountId)
      (actual : CollateralLoan) (interest : Balance) (c : Chain Loans)
      → actual.loan_amount < u128_mod
      → c.pallet.next_loan_id + 1 < 2 ^ 64
      → IsKept c.pallet
      → Leaves
          (lend (no_hooks root) now who package_id pack shop pool actual interest c)
          (λ c'. IsKept c'.pallet)
  unfolding lend get_next_loan_id
  lend-IsKept who package_id pack shop pool actual interest c small room h =
      let l = c.pallet in
      let n = numbered root now c in
      let dues = get_dues pack now in
      let loan : Loan = record {
        id = l.next_loan_id;
        package_id = package_id;
        who = who;
        due = dues.0;
        due_extend = dues.1;
        collateral_balance_original = actual.collateral_amount;
        collateral_balance_available = actual.collateral_amount;
        loan_balance_total = actual.loan_amount;
        status = LoanHealth.well;
      } in
      let kept : IsKept n.pallet = (
        h.0,
        IsFit-later l.next_loan_id ((l.next_loan_id + 1) % 2 ^ 64) l.loans (omega (arith, room))
            h.1,
      ) in
      ground (
        arith,
        fund_loan_lem root now pack who shop pool actual.collateral_amount interest
            (wrapping_sub actual.loan_amount interest) n,
        open_loan-IsKept loan interest n.pallet
            (IsFit-fresh l.next_loan_id l.next_loan_id l.loans h.1 (omega arith)) small
            (omega (arith, room)) kept,
      )

  grant_loan-IsKept :
      (who : AccountId) (package_id : LoanPackageId) (collateral_amount : Balance)
      (pack : LoanPackage) (shop pool : AccountId) (actual : CollateralLoan) (c : Chain Loans)
      → actual.loan_amount < u128_mod
      → c.pallet.next_loan_id + 1 < 2 ^ 64
      → IsKept c.pallet
      → Leaves
          (grant_loan (no_hooks root) now who package_id collateral_amount pack shop pool actual c)
          (λ c'. IsKept c'.pallet)
  unfolding grant_loan
  grant_loan-IsKept who package_id collateral_amount pack shop pool actual c small room h =
      let interest = get_interest pack actual.loan_amount in
      let moved = transfer pack.collateral_asset_id who shop actual.collateral_amount in
      ground (
        arith,
        Leaves->>= (λ _. lend (no_hooks root) now who package_id pack shop pool actual interest)
            (λ c'. c'.pallet ≡ c.pallet) (λ c'. IsKept c'.pallet) moved c
            (transfer_keeps pack.collateral_asset_id who shop actual.collateral_amount c)
            (λ c' e. rw e h)
            (λ _ c' e.
              lend-IsKept who package_id pack shop pool actual interest c' small (rw e room)
                (rw e h)),
      )

  grant-after :
      (who : AccountId) (package_id : LoanPackageId) (collateral_amount : Balance)
      (pack : LoanPackage) (shop pool : AccountId) (c : Chain Loans)
      (o : Outcome (Chain Loans) CollateralLoan)
      → c.pallet.next_loan_id + 1 < 2 ^ 64
      → IsKept c.pallet
      → Ends o (λ a c'. (a.loan_amount < u128_mod) × (c' ≡ c)) (λ c'. c' ≡ c)
      → Keeps
          (((λ (_ : Chain Loans). o)
              >>= grant_loan (no_hooks root) now who package_id collateral_amount pack shop pool)
            c)
          (λ c'. IsKept c'.pallet)
  grant-after who package_id collateral_amount pack shop pool c (ok actual s) room h e =
      Keeps_of_Leaves (λ c'. IsKept c'.pallet)
        (grant_loan (no_hooks root) now who package_id collateral_amount pack shop pool actual s)
        (grant_loan-IsKept who package_id collateral_amount pack shop pool actual s e.0
          (rw e.1 room) (rw e.1 h))
  grant-after who package_id collateral_amount pack shop pool c (err _ s) room h e = rw e h
  grant-after who package_id collateral_amount pack shop pool c panic room h e = tt

  pub apply_for_loan-IsKept :
      (who : AccountId) (package_id : LoanPackageId) (collateral loan : Balance) (c : Chain Loans)
      → loan < u128_mod
      → c.pallet.next_loan_id + 1 < 2 ^ 64
      → IsKept c.pallet
      → Keeps
          (apply_for_loan (no_hooks root) now who package_id collateral loan c)
          (λ c'. IsKept c'.pallet)
  unfolding apply_for_loan
  apply_for_loan-IsKept who package_id collateral loan c small room h =
      let l = c.pallet in
      let pack = get_or default_package (l.active_loan_packages package_id) in
      ground (
        arith,
        grant-after who package_id collateral pack l.pawn_shop l.profit_pool c
            (get_collateral_loan collateral loan c) room h
            (get_collateral_loan_fits collateral loan c small),
      )
