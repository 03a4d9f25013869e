-- ===== src/Loan/Opening.antt =====
-- Applying for a loan keeps the books.
use riochain.Prelude.{◌+◌, ◌%◌, ◌^◌, ◌≡◌, none, arith, Option-cases, inl, inr}
use riochain.Prelude.Words.{wrapping_add, wrapping_sub}
use riochain.Prelude.Maps.{get_or}
use riochain.Prelude.Linked.{lookup}
use riochain.Prelude.Outcome.{
  Outcome, ok, err, panic, ◌>>=◌, Keeps_of_Leaves, Leaves, Keeps, Leaves->>=,
}
use riochain.Assets.Types.{AccountId, Balance}
use riochain.Assets.Module.{make_transfer_with_event, mint_free, burn_free}
use riochain.Assets.Calls
use riochain.Assets.Calls.{Chain, Origin, no_hooks}
use riochain.Loan.Types.{
  LoanPackageId, CollateralLoan, LoanPackage, Loan, Loans, default_package, Moment, LoanHealth,
}
use riochain.Loan.Terms.{get_interest, get_dues}
use riochain.Loan.Packages.{get_collateral_loan, get_next_loan_id}
use riochain.Loan.Lending.{transfer}
use riochain.Loan.Apply.{open_loan, fund_loan, lend, grant_loan, apply_for_loan}
use riochain.Loan.Calls.{apply}
use riochain.Loan.Kept.{transfer_keeps}
use riochain.Loan.Totals.{IsBooked}

open_loan-IsBooked :
    (loan : Loan) (interest : Balance) (l : Loans)
    → lookup loan.id l.loans ≡ none
    → IsBooked l
    → IsBooked (open_loan loan interest l)
unfolding open_loan wrapping_add
open_loan-IsBooked loan interest l fresh h = ground arith

get_collateral_loan_reads :
    (collateral loan : Balance) (c : Chain Loans)
    → Keeps (get_collateral_loan collateral loan c) (λ c'. c' ≡ c)
unfolding get_collateral_loan
get_collateral_loan_reads collateral loan c = ground arith

module _ (root : AccountId) (now : Moment) where
  pub fund_loan_lem :
      (pack : LoanPackage) (who shop pool : AccountId) (collateral interest rest : Balance)
      (c : Chain Loans)
      → Leaves
          (fund_loan (no_hooks root) now pack who shop pool collateral interest rest c)
          (λ c'. c'.pallet ≡ c.pallet)
  unfolding fund_loan Calls.mint Calls.burn mint_free burn_free make_transfer_with_event
  fund_loan_lem pack who shop pool collateral interest rest c = ground arith

  -- The state in which a loan is funded, after the collateral has moved.
  abbrev pub numbered : Chain Loans → Chain Loans
  numbered c =
      let l = c.pallet in
      record c { pallet = record l { next_loan_id = (l.next_loan_id + 1) % 2 ^ 64 } }

  lend-IsBooked :
      (who : AccountId) (package_id : LoanPackageId) (pack : LoanPackage) (shop pool : AccountId)
      (actual : CollateralLoan) (interest : Balance) (c : Chain Loans)
      → lookup c.pallet.next_loan_id c.pallet.loans ≡ none
      → IsBooked c.pallet
      → Leaves
          (lend (no_hooks root) now who package_id pack shop pool actual interest c)
          (λ c'. IsBooked c'.pallet)
  unfolding lend get_next_loan_id
  lend-IsBooked who package_id pack shop pool actual interest c fresh h =
      let n = numbered c in
      let dues = get_dues pack now in
      let loan : Loan = record {
        id = c.pallet.next_loan_id;
        package_id = package_id;
        who = who;
        due = dues.0;
        due_extend = dues.1;
        collateral_balance_original = actual.collateral_amount;
        collateral_balance_available = actual.collateral_amount;
        loan_balance_total = actual.loan_amount;
        status = LoanHealth.well;
      } in
      ground (
        arith,
        fund_loan_lem pack who shop pool actual.collateral_amount interest
            (wrapping_sub actual.loan_amount interest) n,
        open_loan-IsBooked loan interest n.pallet fresh h,
      )

  grant_loan-IsBooked :
      (who : AccountId) (package_id : LoanPackageId) (collateral_amount : Balance)
      (pack : LoanPackage) (shop pool : AccountId) (actual : CollateralLoan) (c : Chain Loans)
      → lookup c.pallet.next_loan_id c.pallet.loans ≡ none
      → IsBooked c.pallet
      → Leaves
          (grant_loan (no_hooks root) now who package_id collateral_amount pack shop pool actual c)
          (λ c'. IsBooked c'.pallet)
  unfolding grant_loan
  grant_loan-IsBooked who package_id collateral_amount pack shop pool actual c fresh h =
      let interest = get_interest pack actual.loan_amount in
      let moved = transfer pack.collateral_asset_id who shop actual.collateral_amount in
      ground (
        arith,
        Leaves->>= (λ _. lend (no_hooks root) now who package_id pack shop pool actual interest)
            (λ c'. c'.pallet ≡ c.pallet) (λ c'. IsBooked c'.pallet) moved c
            (transfer_keeps pack.collateral_asset_id who shop actual.collateral_amount c)
            (λ c' e. ground arith)
            (λ _ c' e.
              lend-IsBooked who package_id pack shop pool actual interest c' (ground arith)
                (ground arith)),
      )

  grant-after :
      (who : AccountId) (package_id : LoanPackageId) (collateral_amount : Balance)
      (pack : LoanPackage) (shop pool : AccountId) (c : Chain Loans)
      (o : Outcome (Chain Loans) CollateralLoan)
      → lookup c.pallet.next_loan_id c.pallet.loans ≡ none
      → IsBooked c.pallet
      → Keeps o (λ c'. c' ≡ c)
      → Keeps
          (((λ (_ : Chain Loans). o)
              >>= grant_loan (no_hooks root) now who package_id collateral_amount pack shop pool)
            c)
          (λ c'. IsBooked c'.pallet)
  grant-after who package_id collateral_amount pack shop pool c (ok actual s) fresh h e =
      Keeps_of_Leaves (λ c'. IsBooked c'.pallet)
        (grant_loan (no_hooks root) now who package_id collateral_amount pack shop pool actual s)
        (grant_loan-IsBooked who package_id collateral_amount pack shop pool actual s (rw e fresh)
          (rw e h))
  grant-after who package_id collateral_amount pack shop pool c (err _ s) fresh h e = rw e h
  grant-after who package_id collateral_amount pack shop pool c panic fresh h e = tt

  apply_for_loan-IsBooked :
      (who : AccountId) (package_id : LoanPackageId) (collateral loan : Balance) (c : Chain Loans)
      → lookup c.pallet.next_loan_id c.pallet.loans ≡ none
      → IsBooked c.pallet
      → Keeps
          (apply_for_loan (no_hooks root) now who package_id collateral loan c)
          (λ c'. IsBooked c'.pallet)
  unfolding apply_for_loan
  apply_for_loan-IsBooked who package_id collateral loan c fresh h =
      let l = c.pallet in
      let pack = get_or default_package (l.active_loan_packages package_id) in
      ground (
        arith,
        grant-after who package_id collateral pack l.pawn_shop l.profit_pool c
            (get_collateral_loan collateral loan c) fresh h
            (get_collateral_loan_reads collateral loan c),
      )

  -- Applying for a loan keeps the books right, whatever the call's result, unless it panics: if each
  -- loan is stored once under its id and the booked total is the sum of the stored loans, as far as
  -- a balance goes, they still are, if no loan is stored under the next id yet and the asset hooks do
  -- nothing.
  apply-IsBooked :
      (origin : Origin) (package_id : LoanPackageId) (collateral loan : Balance) (c : Chain Loans)
      → lookup c.pallet.next_loan_id c.pallet.loans ≡ none
      → IsBooked c.pallet
      → Keeps
          (apply (no_hooks root) now origin collateral loan package_id c)
          (λ c'. IsBooked c'.pallet)
  unfolding apply
  apply-IsBooked origin package_id collateral loan c fresh h = elim (Option-cases origin.signer) [
    | inl e ↦ ground arith
    | inr (who, e) ↦
        ground (arith, apply_for_loan-IsBooked who package_id collateral loan c fresh h)
  ]
