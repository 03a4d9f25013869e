-- ===== src/Loan/Runs.antt =====
-- Sequences of calls and blocks of modules/rio-loan/src/lib.rs, in any order and by any origins.
pub mod Booked
use riochain.Prelude.{
  ℕ, suc, ◌+◌, ◌^◌, ◌<◌, ◌≡◌, none, some, List, [], ◌∷◌, arith, length, Option-cases, inl, inr, All,
  Bool-cases, true,
}
use riochain.Prelude.Words.{u128_mod}
use riochain.Prelude.Maps.{exists, get_or}
use riochain.Prelude.Linked.{lookup}
use riochain.Prelude.Outcome.{Outcome, ok, err, panic, Keeps, Action, Keeps_of_Leaves}
use riochain.Assets.Types.{AccountId, AssetId, Balance}
use riochain.Assets.Calls.{Chain, Origin, Trait, no_hooks}
use riochain.Assets.Runs.{settle}
use riochain.Price.{Price}
use riochain.Loan.Types.{LoanPackageId, LoanId, Ltv, Moment, Loans, Call, default_loan}
use riochain.Loan.Calls
use riochain.Loan.Books.{IsKept}
use riochain.Loan.Kept.{draw_from_loan-IsKept, repay_loan-IsKept, add_loan_collateral-IsKept}
use riochain.Loan.Granted.{apply_for_loan-IsKept}
use riochain.Loan.Checked.{on_initialize-IsKept}
use riochain.Loan.Totals.{lookup_id}
use riochain.Loan.Packages.{create_loan_package, disable_loan_package, get_next_loan_package_id}

-- The `Call` that `decl_module!` derives, one constructor for each dispatchable function.
pub data LoanCall : Type 0 where
  pause resume : LoanCall
  set_collateral_asset_id set_loan_asset_id : AssetId → LoanCall
  set_global_ltv_limit set_global_liquidation_threshold set_global_warning_threshold :
      Ltv → LoanCall
  set_loan_cap : Balance → LoanCall
  set_liquidation_account : AccountId → LoanCall
  set_penalty_rate : ℕ → LoanCall
  set_price : Price → LoanCall
  create_package : ℕ → ℕ → Balance → LoanCall
  disable_package : LoanPackageId → LoanCall
  apply : Balance → Balance → LoanPackageId → LoanCall
  draw add_collateral mark_liquidated : LoanId → Balance → LoanCall
  repay : LoanId → LoanCall

unfoldable pub dispatch : Trait Loans → Moment → Origin → LoanCall → Call
dispatch t now origin LoanCall.pause = Calls.pause origin
dispatch t now origin LoanCall.resume = Calls.resume origin
dispatch t now origin (LoanCall.set_collateral_asset_id id) =
    Calls.set_collateral_asset_id origin id
dispatch t now origin (LoanCall.set_loan_asset_id id) = Calls.set_loan_asset_id origin id
dispatch t now origin (LoanCall.set_global_ltv_limit ltv) = Calls.set_global_ltv_limit origin ltv
dispatch t now origin (LoanCall.set_global_liquidation_threshold ltv) =
    Calls.set_global_liquidation_threshold origin ltv
dispatch t now origin (LoanCall.set_global_warning_threshold ltv) =
    Calls.set_global_warning_threshold origin ltv
dispatch t now origin (LoanCall.set_loan_cap balance) = Calls.set_loan_cap origin balance
dispatch t now origin (LoanCall.set_liquidation_account who) =
    Calls.set_liquidation_account origin who
dispatch t now origin (LoanCall.set_penalty_rate rate) = Calls.set_penalty_rate origin rate
dispatch t now origin (LoanCall.set_price price) = Calls.set_price origin price
dispatch t now origin (LoanCall.create_package terms rate min_rio) =
    Calls.create_package origin terms rate min_rio
dispatch t now origin (LoanCall.disable_package id) = Calls.disable_package origin id
dispatch t now origin (LoanCall.apply collateral loan id) =
    Calls.apply t now origin collateral loan id
dispatch t now origin (LoanCall.draw id amount) = Calls.draw t origin id amount
dispatch t now origin (LoanCall.add_collateral id amount) = Calls.add_collateral origin id amount
dispatch t now origin (LoanCall.mark_liquidated id auction) =
    Calls.mark_liquidated origin id auction
dispatch t now origin (LoanCall.repay id) = Calls.repay t origin id

-- A call at a time, or the beginning of a block at a time.
pub data Step : Type 0 where
  called : Moment → Origin → LoanCall → Step
  initialized : Moment → Step

unfoldable pub step : Trait Loans → Step → Call
unfolding dispatch
step t (called now origin call) = dispatch t now origin call
step t (initialized now) = Calls.on_initialize now

unfoldable pub run : Trait Loans → List Step → Chain Loans → Chain Loans
unfolding step
run t [] c = c
run t (s ∷ rest) c = run t rest (settle c (step t s c))
