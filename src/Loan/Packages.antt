-- ===== src/Loan/Packages.antt =====
-- The packages that loans are made from, and the loan that an amount of collateral allows.
use riochain.Prelude.{ℕ, ◌+◌, ◌%◌, ◌^◌, none, some, ltb, ◌==◌, ◌&&◌, if◌then◌else◌}
use riochain.Prelude.Words.{wrapping_mul}
use riochain.Prelude.Maps.{update, exists, get_or}
use riochain.Prelude.Outcome.{Action, pure, fail, expect, ensure, ◌>>=◌, ◌>>◌}
use riochain.Assets.Types.{Balance}
use riochain.Assets.Calls.{Chain}
use riochain.Loan.Types.{
  ltv_prec, price_prec, LoanPackageId, LoanId, LoanPackageStatus, CollateralLoan, LoanPackage,
  default_package, Event, Loans, Call, pallet, change, deposit_event,
}
use riochain.Loan.Terms.{checked_div}

-- The ids are `u64`.
unfoldable pub get_next_loan_package_id : Action (Chain Loans) LoanPackageId
get_next_loan_package_id = do
  org ← pallet (λ l. l.next_loan_package_id)
  change λ l. record l { next_loan_package_id = (l.next_loan_package_id + 1) % 2 ^ 64 }
  pure org

unfoldable pub get_next_loan_id : Action (Chain Loans) LoanId
get_next_loan_id = do
  org ← pallet (λ l. l.next_loan_id)
  change λ l. record l { next_loan_id = (l.next_loan_id + 1) % 2 ^ 64 }
  pure org

unfoldable pub create_loan_package : ℕ → ℕ → Balance → Call
unfolding get_next_loan_package_id
create_loan_package terms interest_rate_hourly min_rio = do
  package_id ← get_next_loan_package_id
  collateral ← pallet (λ l. l.collateral_asset_id)
  loan ← pallet (λ l. l.loan_asset_id)
  let pack : LoanPackage = record {
    id = package_id;
    status = LoanPackageStatus.active;
    terms = terms;
    min = min_rio;
    interest_rate_hourly = interest_rate_hourly;
    collateral_asset_id = collateral;
    loan_asset_id = loan;
  }
  change λ l. record l { loan_packages = update l.loan_packages package_id (some pack) }
  change
      λ l. record l { active_loan_packages = update l.active_loan_packages package_id (some pack) }
  deposit_event (Event.package_created package_id)

unfoldable pub disable_loan_package : LoanPackageId → Call
disable_loan_package package_id = do
  known ← pallet (λ l. exists (l.loan_packages package_id))
  ensure known "invalid package id"
  change λ l.
      let pack = get_or default_package (l.loan_packages package_id) in
      let disabled = record pack { status = LoanPackageStatus.inactive } in
      record l { loan_packages = update l.loan_packages package_id (some disabled) }
  change λ l. record l { active_loan_packages = update l.active_loan_packages package_id none }
  deposit_event (Event.package_disabled package_id)

abbrev pair_of : Balance → Balance → CollateralLoan
pair_of collateral loan = record { collateral_amount = collateral; loan_amount = loan }

-- With one amount zero the other determines it; with both given the LTV limit is checked. A price
-- or a limit of zero makes a division panic.
unfoldable pub get_collateral_loan : Balance → Balance → Action (Chain Loans) CollateralLoan
unfolding wrapping_mul
get_collateral_loan collateral loan = do
  price ← pallet (λ l. l.current_btc_price)
  ltv ← pallet (λ l. l.global_ltv_limit)
  let lent = wrapping_mul (wrapping_mul loan ltv_prec) price_prec
  let backed = wrapping_mul (wrapping_mul collateral price) ltv
  if collateral == 0 && loan == 0
      then fail "both amount are zero"
      else if collateral == 0
      then (do must ← expect (checked_div lent (wrapping_mul price ltv)); pure (pair_of must loan))
      else if loan == 0
      then (do
        can ← expect (checked_div backed (wrapping_mul ltv_prec price_prec))
        pure (pair_of collateral can))
      else do
        per_unit ← expect (checked_div lent collateral)
        actual ← expect (checked_div per_unit price)
        if ltb ltv actual then fail "over LTV limit" else pure (pair_of collateral loan)
