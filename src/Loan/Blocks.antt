-- ===== src/Loan/Blocks.antt =====
-- `on_each_block`: every loan that is not in liquidation is checked against the price and the
-- clock. The loop's cache of packages returns what the storage holds, so it is left out.
use riochain.Prelude.{Bool, true, false, [], ◌∷◌, leb, ◌==◌, if◌then◌else◌}
use riochain.Prelude.Words.{wrapping_add, checked_sub}
use riochain.Prelude.Maps.{get_or}
use riochain.Prelude.Linked.{LinkedMap, lookup, insert}
use riochain.Prelude.Outcome.{Action, pure, expect, some_or, ignore, ◌>>=◌, ◌>>◌}
use riochain.Assets.Types.{Balance}
use riochain.Assets.Calls.{Chain}
use riochain.Price.{Price}
use riochain.Loan.Types.{
  LoanId, Ltv, Moment, LoanHealth, Loan, default_package, default_loan, Event, Loans, Call, pallet,
  change, deposit_event,
}
use riochain.Loan.Terms.{
  get_ltv, expiration_penalty, expiration_interest, expire_then_update, check_loan_health,
}
use riochain.Loan.Lending.{transfer, check_loan_in_liquidation}
use riochain.Loan.Liquidation.{liquidate_loan}

-- The sums of the loop, of penalties and of interests.
abbrev pub Fees : Type 0
Fees = Balance × Balance

-- What the loop reads before it begins.
pub record Round : Type 0 where
  pub now : Moment
  pub btc_price : Price
  pub liquidation_thd : Ltv
  pub warning_thd : Ltv

-- `!=` between healths, for the two that the loop compares.
abbrev pub is_warning : Ltv → LoanHealth → Bool
is_warning ltv (LoanHealth.warning l) = l == ltv
is_warning ltv _ = false

abbrev pub is_extended : LoanHealth → Bool
is_extended LoanHealth.extended = true
is_extended _ = false

abbrev set_status : LoanId → LoanHealth → Call
set_status loan_id status = change λ l.
    let v = get_or default_loan (lookup loan_id l.loans) in
    record l { loans = insert loan_id (record v { status = status }) l.loans }

abbrev put_loan : LoanId → Loan → Call
put_loan loan_id loan = change λ l. record l { loans = insert loan_id loan l.loans }

-- The arm `Liquidating`, also taken by an expired loan whose new LTV asks for it.
abbrev liquidate : LoanId → Loan → Ltv → Call
liquidate loan_id loan ltv = do
  change (liquidate_loan loan_id ltv)
  deposit_event (
      Event.loan_liquidating loan_id loan.who loan.collateral_balance_available
        loan.loan_balance_total)

-- The arm `Expired`.
unfoldable pub expire_loan : Round → Fees → LoanId → Loan → Action (Chain Loans) Fees
unfolding wrapping_add expire_then_update liquidate_loan
expire_loan r (penalties, interests) loan_id loan = do
  pack ← pallet (λ l. get_or default_package (l.loan_packages loan.package_id))
  rate ← pallet (λ l. l.penalty_rate)
  penalty ← expect (expiration_penalty loan rate r.btc_price)
  interest ← expect (expiration_interest loan pack r.btc_price)
  let total_penalty = wrapping_add penalties penalty
  let total_interest = wrapping_add interests interest
  let new_loan = expire_then_update loan pack r.now penalty interest
  new_ltv ←
      expect (get_ltv new_loan.collateral_balance_available new_loan.loan_balance_total r.btc_price)
  if leb r.liquidation_thd new_ltv
      then (do put_loan loan_id new_loan; liquidate loan_id loan new_ltv)
      else if leb r.warning_thd new_ltv
      then (do
        put_loan loan_id (record new_loan { status = LoanHealth.warning new_ltv })
        deposit_event (Event.loan_warning loan_id new_ltv))
      else (do
        put_loan loan_id new_loan
        deposit_event (Event.loan_expired loan_id loan.who total_penalty total_interest))
  pure (total_penalty, total_interest)

unfoldable pub apply_health : Round → Fees → LoanId → Loan → LoanHealth → Action (Chain Loans) Fees
unfolding expire_loan liquidate_loan
apply_health r fees loan_id loan LoanHealth.well = pure fees
apply_health r fees loan_id loan (LoanHealth.warning ltv) = do
  if is_warning ltv loan.status then pure tt else do
    set_status loan.id (LoanHealth.warning ltv)
    deposit_event (Event.loan_warning loan_id ltv)
  pure fees
apply_health r fees loan_id loan LoanHealth.extended = do
  if is_extended loan.status then pure tt else do
    set_status loan.id LoanHealth.extended
    deposit_event (Event.loan_extended loan_id loan.who)
  pure fees
apply_health r fees loan_id loan (LoanHealth.liquidating ltv) = do
  liquidate loan_id loan ltv
  pure fees
apply_health r fees loan_id loan LoanHealth.expired = expire_loan r fees loan_id loan

-- The body of the loop for one loan.
unfoldable pub check_loan : Round → Fees → LoanId → Loan → Action (Chain Loans) Fees
unfolding check_loan_in_liquidation apply_health
check_loan r fees loan_id loan = do
  skipped ← pallet (check_loan_in_liquidation loan_id)
  if skipped then pure fees else do
    health ← expect (check_loan_health loan r.now r.btc_price r.liquidation_thd r.warning_thd)
    apply_health r fees loan_id loan health

unfoldable pub check_loans : Round → Fees → LinkedMap Loan → Action (Chain Loans) Fees
check_loans r fees [] = pure fees
check_loans r fees ((loan_id, loan) ∷ rest) = do
  fees ← check_loan r fees loan_id loan
  check_loans r fees rest

-- The fees of the block move from the shop to the pool, and leave the booked collateral.
unfoldable pub collect_fees : Balance → Call
unfolding checked_sub
collect_fees fees = do
  asset ← pallet (λ l. l.collateral_asset_id)
  pawnshop ← pallet (λ l. l.pawn_shop)
  profit_pool ← pallet (λ l. l.profit_pool)
  ignore do
    transfer asset pawnshop profit_pool fees
    booked ← pallet (λ l. l.total_collateral)
    total ← some_or (checked_sub booked fees) "total collateral underflows"
    change λ l. record l { total_collateral = total }

unfoldable pub on_each_block : Moment → Call
unfolding wrapping_add
on_each_block now = do
  price ← pallet (λ l. l.current_btc_price)
  liquidation_thd ← pallet (λ l. l.global_liquidation_threshold)
  warning_thd ← pallet (λ l. l.global_warning_threshold)
  let r : Round = record {
    now = now;
    btc_price = price;
    liquidation_thd = liquidation_thd;
    warning_thd = warning_thd;
  }
  loans ← pallet (λ l. l.loans)
  fees ← check_loans r (0, 0) loans
  let total = wrapping_add fees.0 fees.1
  if total == 0 then pure tt else collect_fees total
