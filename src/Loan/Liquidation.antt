-- ===== src/Loan/Liquidation.antt =====
-- Putting a loan into liquidation, and closing it once its collateral is sold.
use riochain.Prelude.{◌/◌, [], ◌∷◌, ◌++◌, ltb, leb, if◌then◌else◌}
use riochain.Prelude.Words.{wrapping_sub, wrapping_mul, checked_sub}
use riochain.Prelude.Maps.{update, get_or}
use riochain.Prelude.Linked.{lookup, insert, remove}
use riochain.Prelude.Outcome.{Action, pure, fail, expect, ensure, or_else, ◌>>=◌, ◌>>◌}
use riochain.Assets.Types.{AccountId, AssetId, Balance}
use riochain.Assets.Calls.{Chain}
use riochain.Loan.Types.{
  ltv_prec, LoanId, Ltv, LoanHealth, Loan, default_package, default_loan, Event, Loans, Call,
  pallet, change, deposit_event,
}
use riochain.Loan.Lending.{transfer, free, without, check_loan_in_liquidation}

-- The list is stored under a key that may not exist yet; the result is the same.
unfoldable pub liquidate_loan : LoanId → Ltv → Loans → Loans
liquidate_loan loan_id ltv l =
    let v = get_or default_loan (lookup loan_id l.loans) in
    record l {
      loans = insert loan_id (record v { status = LoanHealth.liquidating ltv }) l.loans;
      liquidating_loans = l.liquidating_loans ++ loan_id ∷ [];
    }

-- The leftover of the auction is shared between the pool and the borrower; a failure undoes the
-- earlier transfers.
unfoldable pub share_leftover :
    AssetId → AccountId → AccountId → Loan → Balance → Balance → Action (Chain Loans) Unit
unfolding wrapping_sub
share_leftover asset liquidation_account pawnshop loan leftover penalty = do
  profit_pool ← pallet (λ l. l.profit_pool)
  or_else (transfer asset liquidation_account profit_pool penalty)
      λ e. do transfer asset pawnshop liquidation_account loan.loan_balance_total; fail e
  or_else (transfer asset liquidation_account loan.who (wrapping_sub leftover penalty)) λ e. do
    transfer asset profit_pool liquidation_account penalty
    transfer asset pawnshop liquidation_account loan.loan_balance_total
    fail e

unfoldable pub forget_loan : Loan → Loans → Loans
unfolding without
forget_loan loan l = record l {
  loans = remove loan.id l.loans;
  loans_by_account =
      update l.loans_by_account loan.who (without loan.id (l.loans_by_account loan.who));
  liquidating_loans = without loan.id l.liquidating_loans;
}

-- The final `unwrap` panics where the auction brought less than the loan.
unfoldable pub mark_loan_liquidated : Loan → AccountId → Balance → Call
unfolding check_loan_in_liquidation share_leftover forget_loan checked_sub wrapping_mul
mark_loan_liquidated loan liquidation_account auction_balance = do
  liquidating ← pallet (check_loan_in_liquidation loan.id)
  ensure liquidating "loan id not in liquidating"
  pawnshop ← pallet (λ l. l.pawn_shop)
  pack ← pallet (λ l. get_or default_package (l.loan_packages loan.package_id))
  funds ← free pack.loan_asset_id liquidation_account
  ensure (leb auction_balance funds) "not enough asset to liquidate"
  transfer pack.loan_asset_id liquidation_account pawnshop loan.loan_balance_total
  rate ← pallet (λ l. l.liquidation_penalty)
  let leftover = get_or 0 (checked_sub auction_balance loan.loan_balance_total)
  let penalty = wrapping_mul leftover rate / ltv_prec
  if ltb 0 leftover
      then share_leftover pack.loan_asset_id liquidation_account pawnshop loan leftover penalty
      else pure tt
  change (forget_loan loan)
  last ← expect (checked_sub auction_balance loan.loan_balance_total)
  deposit_event (
      Event.loan_liquidated loan.id loan.collateral_balance_original
        loan.collateral_balance_available auction_balance loan.loan_balance_total
        (if ltb 0 last then wrapping_sub last penalty else last))
