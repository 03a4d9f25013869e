-- ===== src/Loan/Tests.antt =====
-- The theorems on `rio-loan` at a small state: asset 10 backs loans of asset 20, account 1 borrows,
-- account 7 is the shop, 8 the pool, 6 the liquidation account, and 9 the root key.
use riochain.Prelude.{
  ◌+◌, ◌-◌, ◌<◌, ◌≤◌, ◌≡◌, refl, ◌⊎◌, none, some, List, [], ◌∷◌, arith, ◌==◌, if◌then◌else◌, true,
  false,
}
use riochain.Prelude.Words.{u128_mod}
use riochain.Prelude.Linked.{lookup}
use riochain.Prelude.Outcome.{panic, Returns, Leaves, Keeps, ◌>>◌}
use riochain.Assets.Types.{PermissionType, Assets, v1}
use riochain.Assets.Module.{check_permission}
use riochain.Assets.Calls.{Chain, root_origin, signed_by, no_hooks, owned_by}
use riochain.Loan.Types.{LoanHealth, LoanPackageStatus, LoanPackage, LoanId, Loan, Loans}
use riochain.Loan.Terms.{expiration_penalty, expiration_interest, check_loan_health, get_ltv}
use riochain.Loan.Lending.{available_credit, check_loan_in_liquidation}
use riochain.Loan.Calls.{disable_package, apply, repay, draw, on_initialize, mark_liquidated}
use riochain.Loan.Credit.{limit_of, IsWithin, loan_at, available_credit_lem, draw-IsWithin}
use riochain.Loan.Safety.{disable_package_refuses}
use riochain.Loan.Stuck.{on_initialize_panics}
use riochain.Loan.Repay.{IsPayable, repay_succeeds}
use riochain.Loan.Totals.{sum_loans}
use riochain.Loan.Liquidated.{IsSold, mark_liquidated_overbooks}
use riochain.Loan.Books.{IsKept}
use riochain.Loan.Runs.{LoanCall, Step, called, initialized, run}
use riochain.Loan.Runs.Booked.{run-IsKept}
use riochain.Loan.Liquidating.{IsListedOnce, on_initialize-IsListedOnce}

abbrev assets : Assets
assets = record {
  total_issuance = λ a. 1000000;
  free_balance = λ a who. if who == 1 then 60000 else if who == 7 then 300000 else 0;
  reserved_balance = λ a who. 0;
  permissions = λ a. v1 (owned_by 9);
  restrictions = λ a r. false;
  symbols = λ a. some [];
  from_id = none;
  to_id = none;
  events = [];
}

abbrev monthly : LoanPackage
monthly = record {
  id = 1;
  status = LoanPackageStatus.active;
  terms = 30;
  min = 100;
  interest_rate_hourly = 1000;
  collateral_asset_id = 10;
  loan_asset_id = 20;
}

-- At a price of 8 and an LTV limit of 60 %, its collateral allows 960000 units of loan.
abbrev small_loan : Loan
small_loan = record {
  id = 4;
  package_id = 1;
  who = 1;
  due = 1000;
  due_extend = 2000;
  collateral_balance_original = 200000;
  collateral_balance_available = 200000;
  loan_balance_total = 80;
  status = LoanHealth.well;
}

abbrev loans : Loans
loans = record {
  pawn_shop = 7;
  profit_pool = 8;
  collateral_asset_id = 10;
  loan_asset_id = 20;
  global_ltv_limit = 6000;
  global_liquidation_threshold = 9000;
  global_warning_threshold = 8000;
  next_loan_package_id = 2;
  active_loan_packages = λ id. if id == 1 then some monthly else none;
  loan_packages = λ id. if id == 1 then some monthly else none;
  next_loan_id = 5;
  loans = (4, small_loan) ∷ [];
  loans_by_account = λ who. if who == 1 then 4 ∷ [] else [];
  current_btc_price = 80000;
  total_loan = 80;
  total_collateral = 200000;
  total_profit = 0;
  penalty_rate = 200;
  liquidation_account = 6;
  liquidating_loans = [];
  loan_cap = none;
  paused = false;
  minimum_collateral = 10;
  liquidation_penalty = 1300;
  events = [];
}

abbrev start : Chain Loans
start = record { assets = assets; pallet = loans }

draw-IsWithin_example :
    Leaves
      (draw (no_hooks 9) (signed_by 1) 4 10 start)
      (λ c'. IsWithin (loan_at 4 c'.pallet) c'.pallet)
draw-IsWithin_example = draw-IsWithin 9 (signed_by 1) 4 10 start (ground arith) (ground arith)

available_credit_lem_example :
    (small_loan.loan_balance_total ≤ limit_of 200000 loans)
      × (available_credit small_loan loans + 80 ≡ limit_of 200000 loans)
    ⊎ (limit_of 200000 loans < small_loan.loan_balance_total)
      × (available_credit small_loan loans + (80 - limit_of 200000 loans) ≡ u128_mod)
available_credit_lem_example =
    available_credit_lem small_loan loans (ground arith) (ground arith) (ground arith)

disable_package_refuses_example :
    Leaves
      ((disable_package root_origin 1 >> apply (no_hooks 9) 500 (signed_by 1) 1000 200 1) start)
      λ c'.
        (c'.assets ≡ assets)
        × (c'.pallet.loans ≡ loans.loans)
        × (c'.pallet.total_loan ≡ 80)
        × (c'.pallet.total_collateral ≡ 200000)
disable_package_refuses_example =
    disable_package_refuses (no_hooks 9) 500 root_origin (signed_by 1) 1 1000 200 start

-- A year at 0.02 % an hour: the interest alone is 175 % of the loan.
abbrev yearly : LoanPackage
yearly = record monthly { id = 2; terms = 365; interest_rate_hourly = 20000 }

-- At an LTV of 75 % its collateral is less than the fees of 30 and 2628.
abbrev spent : Loan
spent = record small_loan {
  id = 3;
  package_id = 2;
  collateral_balance_available = 2000;
  loan_balance_total = 12000;
}

abbrev with_spent : Chain Loans
with_spent = record {
  assets = assets;
  pallet = record loans {
    loans = (4, small_loan) ∷ (3, spent) ∷ [];
    loan_packages = λ id. if id == 1 then some monthly else if id == 2 then some yearly else none;
  };
}

penalty_of : expiration_penalty spent 200 80000 ≡ some 30
unfolding expiration_penalty
penalty_of = refl

interest_of : expiration_interest spent yearly 80000 ≡ some 2628
unfolding expiration_interest
interest_of = refl

has_expired : check_loan_health spent 3000 80000 9000 8000 ≡ some LoanHealth.expired
unfolding check_loan_health get_ltv
has_expired = refl

is_free : check_loan_in_liquidation 3 with_spent.pallet ≡ false
unfolding check_loan_in_liquidation
is_free = refl

on_initialize_panics_example : on_initialize 3000 with_spent ≡ panic
on_initialize_panics_example =
    on_initialize_panics with_spent 3000 3 spent 30 2628 refl refl is_free has_expired interest_of
      penalty_of (ground arith) (ground arith)

may_burn : check_permission 20 9 PermissionType.burn assets ≡ true
unfolding check_permission
may_burn = refl

small_loan-IsPayable : IsPayable 9 1 7 small_loan monthly start
small_loan-IsPayable = record {
  owner = refl;
  apart = ground arith;
  kinds = ground arith;
  loans_open = ground arith;
  collateral_open = ground arith;
  funds = ground arith;
  stock = ground arith;
  room = ground arith;
  room_back = ground arith;
  bounded = ground arith;
  bounded_stock = ground arith;
  issued = ground arith;
  bounded_issue = ground arith;
  may_burn = may_burn;
}

repay_succeeds_example : Returns (repay (no_hooks 9) (signed_by 1) 4 start) λ _ c'.
    ((other : LoanId)
      → lookup other c'.pallet.loans ≡ (if 4 == other then none else lookup other loans.loans))
    × (c'.pallet.total_loan + 80 ≡ 80)
    × (c'.assets.free_balance 20 1 + 80 ≡ 60000)
    × (c'.assets.free_balance 10 1 ≡ 60000 + 200000)
    × (c'.assets.total_issuance 20 + 80 ≡ 1000000)
repay_succeeds_example =
    repay_succeeds 9 1 4 small_loan monthly start refl refl refl refl refl (ground arith)
      (ground arith) small_loan-IsPayable

on_initialize-IsListedOnce_example : Keeps (on_initialize 500 start) IsListedOnce
on_initialize-IsListedOnce_example = on_initialize-IsListedOnce 500 start tt

-- The loan is in liquidation, and account 6 brings what it owes.
abbrev sold : Chain Loans
sold = record {
  assets = record assets { free_balance = λ a who. if who == 6 then 90 else 0 };
  pallet = record loans { liquidating_loans = 4 ∷ [] };
}

sold-IsSold : IsSold (signed_by 6) small_loan sold
sold-IsSold = record {
  running = refl;
  signed = refl;
  stored = refl;
  liquidating = refl;
  known = refl;
  free = refl;
  funds = ground arith;
}

mark_liquidated_overbooks_example : Returns (mark_liquidated (signed_by 6) 4 80 sold) λ _ c'.
    (lookup 4 c'.pallet.loans ≡ none)
    × (c'.pallet.total_loan ≡ 80)
    × (sum_loans c'.pallet.loans + 80 ≡ 80 + 0)
mark_liquidated_overbooks_example =
    mark_liquidated_overbooks (signed_by 6) small_loan sold sold-IsSold (refl, refl, tt)

-- Another loan, a draw on the first, more collateral, a block that nobody is warned in, and the
-- first loan repaid.
abbrev steps : List Step
steps =
    called 10 (signed_by 1) (LoanCall.apply 1000 200 1)
    ∷ called 11 (signed_by 1) (LoanCall.draw 4 10)
    ∷ called 12 (signed_by 1) (LoanCall.add_collateral 4 50)
    ∷ initialized 20
    ∷ called 21 (signed_by 1) (LoanCall.repay 4)
    ∷ []

run-IsKept_example : IsKept (run (no_hooks 9) steps start).pallet
run-IsKept_example =
    run-IsKept 9 steps start ((ground arith, ground arith), (tt, (tt, (tt, tt))))
      (((refl, refl, tt), ground arith), ((ground arith, ground arith), tt))
