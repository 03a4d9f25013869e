-- ===== src/Loan/Apply.antt =====
-- `apply_for_loan`.
use riochain.Prelude.{Bool, false, Option, none, some, ◌∷◌, [], ◌++◌, ltb, leb, ◌==◌, ◌&&◌, not}
use riochain.Prelude.Words.{wrapping_add, wrapping_sub}
use riochain.Prelude.Maps.{update, exists, get_or}
use riochain.Prelude.Linked.{insert}
use riochain.Prelude.Outcome.{fail, ensure, or_else, ◌>>=◌, ◌>>◌}
use riochain.Assets.Types.{AccountId, Balance}
use riochain.Assets.Calls
use riochain.Assets.Calls.{root_origin, Trait}
use riochain.Loan.Types.{
  LoanPackageId, Moment, LoanHealth, CollateralLoan, LoanPackage, Loan, default_package, Event,
  Loans, Call, pallet, change, deposit_event,
}
use riochain.Loan.Terms.{get_interest, get_dues}
use riochain.Loan.Packages.{get_next_loan_id, get_collateral_loan}
use riochain.Loan.Lending.{transfer}

abbrev pub cap_reached : Option Balance → Balance → Bool
cap_reached none total = false
cap_reached (some cap) total = leb cap total

-- The bookings of a new loan.
unfoldable pub open_loan : Loan → Balance → Loans → Loans
unfolding wrapping_add
open_loan loan interest l = record l {
  loans = insert loan.id loan l.loans;
  loans_by_account =
      update l.loans_by_account loan.who (l.loans_by_account loan.who ++ loan.id ∷ []);
  total_loan = wrapping_add l.total_loan loan.loan_balance_total;
  total_collateral = wrapping_add l.total_collateral loan.collateral_balance_original;
  total_profit = wrapping_add l.total_profit interest;
}

-- The answer of `timestamp::get`.
module _ (t : Trait Loans) (now : Moment) where
  -- The assets' part: collateral to the shop, then the interest and the rest of the loan are
  -- minted; what was done is undone where a later part fails.
  unfoldable pub fund_loan :
      LoanPackage → AccountId → AccountId → AccountId → Balance → Balance → Balance → Call
  fund_loan pack who shop profit_pool collateral interest rest = do
    or_else (Calls.mint t root_origin pack.loan_asset_id profit_pool interest)
        λ e. do transfer pack.collateral_asset_id shop who collateral; fail e
    or_else (Calls.mint t root_origin pack.loan_asset_id who rest) λ e. do
      Calls.burn t root_origin pack.loan_asset_id profit_pool interest
      transfer pack.collateral_asset_id shop who collateral
      fail e

  -- What follows the transfer of the collateral.
  unfoldable pub lend :
      AccountId
      → LoanPackageId
      → LoanPackage
      → AccountId
      → AccountId
      → CollateralLoan
      → Balance
      → Call
  unfolding get_dues get_next_loan_id fund_loan open_loan wrapping_sub
  lend who package_id pack shop profit_pool actual interest = do
    loan_id ← get_next_loan_id
    let dues = get_dues pack now
    let loan : Loan = record {
      id = loan_id;
      package_id = package_id;
      who = who;
      due = dues.0;
      due_extend = dues.1;
      collateral_balance_original = actual.collateral_amount;
      collateral_balance_available = actual.collateral_amount;
      loan_balance_total = actual.loan_amount;
      status = LoanHealth.well;
    }
    fund_loan pack who shop profit_pool actual.collateral_amount interest
        (wrapping_sub actual.loan_amount interest)
    change (open_loan loan interest)
    deposit_event (Event.loan_created loan)

  -- The arm `Ok` of the match on `get_collateral_loan`.
  unfoldable pub grant_loan :
      AccountId
      → LoanPackageId
      → Balance
      → LoanPackage
      → AccountId
      → AccountId
      → CollateralLoan
      → Call
  unfolding get_interest lend
  grant_loan who package_id collateral_amount pack shop profit_pool actual = do
    ensure (leb pack.min actual.loan_amount) "not reach min loan amount"
    minimum ← pallet (λ l. l.minimum_collateral)
    ensure (leb minimum collateral_amount) "not reach min collateral amount"
    let interest = get_interest pack actual.loan_amount
    ensure (ltb interest actual.loan_amount) "interest is too high"
    transfer pack.collateral_asset_id who shop actual.collateral_amount
    lend who package_id pack shop profit_pool actual interest

  unfoldable pub apply_for_loan : AccountId → LoanPackageId → Balance → Balance → Call
  unfolding grant_loan
  apply_for_loan who package_id collateral_amount loan_amount = do
    ensure (not (collateral_amount == 0 && loan_amount == 0))
        "invalid combination of collateral & loan amount"
    found ← pallet (λ l. l.active_loan_packages package_id)
    ensure (exists found) "invalid package id"
    let pack = get_or default_package found
    shop ← pallet (λ l. l.pawn_shop)
    profit_pool ← pallet (λ l. l.profit_pool)
    capped ← pallet (λ l. cap_reached l.loan_cap l.total_loan)
    ensure (not capped) "reach loan limit"
    actual ← get_collateral_loan collateral_amount loan_amount
    grant_loan who package_id collateral_amount pack shop profit_pool actual
