-- ===== src/Loan/Calls.antt =====
-- The dispatchable calls of modules/rio-loan/src/lib.rs, `on_initialize`, and the price hook.
use riochain.Prelude.{ℕ, true, false, none, some, ltb, ◌==◌, ◌&&◌, not, if◌then◌else◌}
use riochain.Prelude.Maps.{exists, get_or}
use riochain.Prelude.Linked.{lookup}
use riochain.Prelude.Outcome.{pure, ensure, ◌>>=◌, ◌>>◌}
use riochain.Assets.Types.{AccountId, AssetId, Balance}
use riochain.Assets.Calls.{Origin, ensure_root, ensure_signed, Trait}
use riochain.Price.{Price}
use riochain.Loan.Types.{
  interest_rate_prec, LoanPackageId, LoanId, Ltv, Moment, default_loan, Loans, Call, pallet, change,
}
use riochain.Loan.Packages.{create_loan_package, disable_loan_package}
use riochain.Loan.Lending.{repay_loan, draw_from_loan, add_loan_collateral}
use riochain.Loan.Apply.{apply_for_loan}
use riochain.Loan.Liquidation.{mark_loan_liquidated}
use riochain.Loan.Blocks.{on_each_block}

unfoldable pub pause : Origin → Call
pause origin = do ensure_root origin; change λ l. record l { paused = true }

unfoldable pub resume : Origin → Call
resume origin = do ensure_root origin; change λ l. record l { paused = false }

unfoldable pub set_collateral_asset_id : Origin → AssetId → Call
set_collateral_asset_id origin asset_id = do
  ensure_root origin
  change λ l. record l { collateral_asset_id = asset_id }

unfoldable pub set_global_ltv_limit : Origin → Ltv → Call
set_global_ltv_limit origin limit = do
  ensure_root origin
  change λ l. record l { global_ltv_limit = limit }

unfoldable pub set_loan_asset_id : Origin → AssetId → Call
set_loan_asset_id origin asset_id = do
  ensure_root origin
  change λ l. record l { loan_asset_id = asset_id }

-- As in the source, this setter writes the warning threshold, and the next one the liquidation
-- threshold.
unfoldable pub set_global_liquidation_threshold : Origin → Ltv → Call
set_global_liquidation_threshold origin threshold = do
  ensure_root origin
  change λ l. record l { global_warning_threshold = threshold }

unfoldable pub set_global_warning_threshold : Origin → Ltv → Call
set_global_warning_threshold origin threshold = do
  ensure_root origin
  change λ l. record l { global_liquidation_threshold = threshold }

unfoldable pub set_loan_cap : Origin → Balance → Call
set_loan_cap origin balance = do
  ensure_root origin
  change λ l. record l { loan_cap = if balance == 0 then none else some balance }

unfoldable pub set_liquidation_account : Origin → AccountId → Call
set_liquidation_account origin account_id = do
  ensure_root origin
  change λ l. record l { liquidation_account = account_id }

unfoldable pub set_penalty_rate : Origin → ℕ → Call
set_penalty_rate origin rate = do ensure_root origin; change λ l. record l { penalty_rate = rate }

abbrev ensure_running : Call
ensure_running = do paused ← pallet (λ l. l.paused); ensure (not paused) "module is paused"

unfoldable pub create_package : Origin → ℕ → ℕ → Balance → Call
create_package origin terms interest_rate_hourly min_rio = do
  ensure_running
  ensure_root origin
  ensure (ltb 0 terms && ltb 0 interest_rate_hourly && ltb 0 min_rio) "zero is not allowed"
  ensure (ltb interest_rate_hourly interest_rate_prec) "invalid interest rate"
  create_loan_package terms interest_rate_hourly min_rio

unfoldable pub disable_package : Origin → LoanPackageId → Call
disable_package origin package_id = do
  ensure_running
  ensure_root origin
  disable_loan_package package_id

unfoldable pub set_price : Origin → Price → Call
set_price origin price = do ensure_root origin; change λ l. record l { current_btc_price = price }

-- `rio_price::OnChange::on_change`
unfoldable pub on_change : Price → Call
on_change p = change λ l. record l { current_btc_price = p }

unfoldable pub mark_liquidated : Origin → LoanId → Balance → Call
mark_liquidated origin loan_id auction_balance = do
  ensure_running
  liquidation_account ← ensure_signed origin
  allowed ← pallet (λ l. liquidation_account == l.liquidation_account)
  ensure allowed "liquidation account only"
  found ← pallet (λ l. lookup loan_id l.loans)
  ensure (exists found) "loan doesn't exists"
  mark_loan_liquidated (get_or default_loan found) liquidation_account auction_balance

unfoldable pub add_collateral : Origin → LoanId → Balance → Call
add_collateral origin loan_id amount = do
  ensure_running
  who ← ensure_signed origin
  found ← pallet (λ l. lookup loan_id l.loans)
  ensure (exists found) "loan doesn't exists"
  let loan = get_or default_loan found
  ensure (who == loan.who) "adding collateral to other's loan is not allowed"
  add_loan_collateral loan loan.who amount

unfoldable pub on_initialize : Moment → Call
on_initialize now = do
  paused ← pallet (λ l. l.paused)
  if paused then pure tt else on_each_block now

module _ (t : Trait Loans) where
  unfoldable pub repay : Origin → LoanId → Call
  repay origin loan_id = do ensure_running; who ← ensure_signed origin; repay_loan t who loan_id

  unfoldable pub draw : Origin → LoanId → Balance → Call
  draw origin loan_id amount = do
    ensure_running
    who ← ensure_signed origin
    draw_from_loan t who loan_id amount

  unfoldable pub apply : Moment → Origin → Balance → Balance → LoanPackageId → Call
  apply now origin collateral_amount loan_amount package_id = do
    ensure_running
    who ← ensure_signed origin
    apply_for_loan t now who package_id collateral_amount loan_amount
