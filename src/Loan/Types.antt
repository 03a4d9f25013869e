-- ===== src/Loan/Types.antt =====
-- The data, the storage and the events of modules/rio-loan/src/lib.rs. Ids and LTVs are `u64`,
-- rates and terms `u32`, a moment is a `u64` of milliseconds.
use riochain.Prelude.{ℕ, Bool, Option, List, ◌∷◌}
use riochain.Prelude.Linked.{LinkedMap}
use riochain.Prelude.Outcome.{Action, gets, modify}
use riochain.Assets.Types.{AccountId, AssetId, Balance}
use riochain.Assets.Calls.{Chain, on_pallet}
use riochain.Price.{Price}

abbrev pub interest_rate_prec : ℕ
interest_rate_prec = 100000000

abbrev pub ltv_prec : ℕ
ltv_prec = 10000

abbrev pub price_prec : ℕ
price_prec = 10000

abbrev pub terms_unit : ℕ
terms_unit = 86400

abbrev pub due_extend_terms : ℕ
due_extend_terms = 2

abbrev pub LoanPackageId : Type 0
LoanPackageId = ℕ

abbrev pub LoanId : Type 0
LoanId = ℕ

abbrev pub Ltv : Type 0
Ltv = ℕ

abbrev pub Moment : Type 0
Moment = ℕ

pub data LoanHealth : Type 0 where
  well extended expired : LoanHealth
  warning liquidating : Ltv → LoanHealth

pub data LoanPackageStatus : Type 0 where
  active inactive : LoanPackageStatus

pub record CollateralLoan : Type 0 where
  pub collateral_amount : Balance
  pub loan_amount : Balance

pub record LoanPackage : Type 0 where
  pub id : LoanPackageId
  pub status : LoanPackageStatus
  pub terms : ℕ
  pub min : Balance
  pub interest_rate_hourly : ℕ
  pub collateral_asset_id : AssetId
  pub loan_asset_id : AssetId

pub record Loan : Type 0 where
  pub id : LoanId
  pub package_id : LoanPackageId
  pub who : AccountId
  pub due : Moment
  pub due_extend : Moment
  pub collateral_balance_original : Balance
  pub collateral_balance_available : Balance
  pub loan_balance_total : Balance
  pub status : LoanHealth

-- What a storage map returns for a missing key.
abbrev pub default_package : LoanPackage
default_package = record {
  id = 0;
  status = LoanPackageStatus.active;
  terms = 0;
  min = 0;
  interest_rate_hourly = 0;
  collateral_asset_id = 0;
  loan_asset_id = 0;
}

abbrev pub default_loan : Loan
default_loan = record {
  id = 0;
  package_id = 0;
  who = 0;
  due = 0;
  due_extend = 0;
  collateral_balance_original = 0;
  collateral_balance_available = 0;
  loan_balance_total = 0;
  status = LoanHealth.well;
}

-- `Expired` carries the sums of the penalties and interests so far, `Liquidating` the balances
-- before the fees.
pub data Event : Type 0 where
  package_created package_disabled : LoanPackageId → Event
  loan_created : Loan → Event
  loan_drawn add_collateral : LoanId → Balance → Event
  loan_repaid : LoanId → Balance → Balance → Event
  loan_expired : LoanId → AccountId → Balance → Balance → Event
  loan_extended : LoanId → AccountId → Event
  loan_warning : LoanId → Ltv → Event
  loan_liquidating : LoanId → AccountId → Balance → Balance → Event
  loan_liquidated : LoanId → Balance → Balance → Balance → Balance → Balance → Event

pub record Loans : Type 0 where
  pub pawn_shop : AccountId
  pub profit_pool : AccountId
  pub collateral_asset_id : AssetId
  pub loan_asset_id : AssetId
  pub global_ltv_limit : Ltv
  pub global_liquidation_threshold : Ltv
  pub global_warning_threshold : Ltv
  pub next_loan_package_id : LoanPackageId
  pub active_loan_packages : LoanPackageId → Option LoanPackage
  pub loan_packages : LoanPackageId → Option LoanPackage
  pub next_loan_id : LoanId
  pub loans : LinkedMap Loan
  pub loans_by_account : AccountId → List LoanId
  pub current_btc_price : Price
  pub total_loan : Balance
  pub total_collateral : Balance
  pub total_profit : Balance
  pub penalty_rate : ℕ
  pub liquidation_account : AccountId
  pub liquidating_loans : List LoanId
  pub loan_cap : Option Balance
  pub paused : Bool
  pub minimum_collateral : Balance
  pub liquidation_penalty : ℕ
  pub events : List Event

abbrev pub Call : Type 0
Call = Action (Chain Loans) Unit

abbrev pub pallet : {A : Type 0} → (Loans → A) → Action (Chain Loans) A
pallet f = gets (λ c. f c.pallet)

abbrev pub change : (Loans → Loans) → Call
change f = on_pallet (modify f)

abbrev pub deposit_event : Event → Call
deposit_event e = change λ l. record l { events = e ∷ l.events }
