-- ===== src/Loan/Kept.antt =====
-- What the calls on one loan leave in the books.
use riochain.Prelude.{◌≡◌, some, arith}
use riochain.Prelude.Words.{wrapping_add, wrapping_sub}
use riochain.Prelude.Maps.{get_or}
use riochain.Prelude.Linked.{lookup}
use riochain.Prelude.Outcome.{Leaves}
use riochain.Assets.Types.{AccountId, AssetId, Balance}
use riochain.Assets.Module.{make_transfer_with_event}
use riochain.Assets.Calls.{Chain, no_hooks}
use riochain.Loan.Types.{LoanId, Loan, Loans, default_package}
use riochain.Loan.Terms.{get_interest}
use riochain.Loan.Lending.{
  book_draw, draw_from_loan, repay_loan, close_loan, add_loan_collateral, transfer,
}
use riochain.Loan.Credit.{loan_at, pay_out_lem}
use riochain.Loan.Totals.{lookup_id, settle_loan_cases}
use riochain.Loan.Books.{
  IsKept, IsFit-lookup, put_loan-IsKept, insert_same, close_loan-IsKept, revert_callback-IsKept,
}

module _ (root : AccountId) where
  pub draw_from_loan-IsKept :
      (who : AccountId) (loan_id : LoanId) (amount : Balance) (c : Chain Loans)
      → IsKept c.pallet
      → Leaves (draw_from_loan (no_hooks root) who loan_id amount c) (λ c'. IsKept c'.pallet)
  unfolding draw_from_loan book_draw
  draw_from_loan-IsKept who loan_id amount c h =
      let l = c.pallet in
      let loan = loan_at loan_id l in
      let pack = get_or default_package (l.loan_packages loan.package_id) in
      let interest = get_interest pack amount in
      let more : Loan = record loan {
        loan_balance_total = wrapping_add loan.loan_balance_total amount;
      } in
      ground (
        arith,
        pay_out_lem root pack l.profit_pool who interest (wrapping_sub amount interest) c,
        put_loan-IsKept loan_id more loan amount l,
      )

  pub repay_loan-IsKept :
      (who : AccountId) (loan_id : LoanId) (c : Chain Loans)
      → IsKept c.pallet
      → Leaves (repay_loan (no_hooks root) who loan_id c) (λ c'. IsKept c'.pallet)
  unfolding repay_loan
  repay_loan-IsKept who loan_id c h =
      let l = c.pallet in
      let loan = loan_at loan_id l in
      let pack = get_or default_package (l.loan_packages loan.package_id) in
      let closed : Chain Loans = record c { pallet = close_loan loan loan_id l } in
      ground (
        arith,
        lookup_id loan_id loan l.loans,
        close_loan-IsKept loan loan_id l,
        revert_callback-IsKept loan closed.pallet,
        settle_loan_cases root loan pack l.pawn_shop closed,
        IsFit-lookup l.next_loan_id loan_id loan l.loans,
      )

pub transfer_keeps :
    (asset : AssetId) (from to : AccountId) (amount : Balance) (c : Chain Loans)
    → Leaves (transfer asset from to amount c) (λ c'. c'.pallet ≡ c.pallet)
unfolding make_transfer_with_event
transfer_keeps asset from to amount c = ground arith

pub add_loan_collateral-IsKept :
    (loan : Loan) (from : AccountId) (amount : Balance) (c : Chain Loans)
    → lookup loan.id c.pallet.loans ≡ some loan
    → IsKept c.pallet
    → Leaves (add_loan_collateral loan from amount c) (λ c'. IsKept c'.pallet)
unfolding add_loan_collateral
add_loan_collateral-IsKept loan from amount c found h =
    let l = c.pallet in
    let pack = get_or default_package (l.loan_packages loan.package_id) in
    let more : Loan = record loan {
      collateral_balance_original = wrapping_add loan.collateral_balance_original amount;
      collateral_balance_available = wrapping_add loan.collateral_balance_available amount;
    } in
    ground (
      arith,
      transfer_keeps pack.collateral_asset_id from l.pawn_shop amount c,
      insert_same l.next_loan_id loan.id more loan l.loans,
    )
