-- ===== src/Loan/Repay.antt =====
-- What repaying a loan does to the loan, the totals and the accounts.
use riochain.Prelude.{
  ◌+◌, ◌≤◌, ◌<◌, ◌≡◌, ◌≢◌, true, false, none, some, arith, contains, if◌then◌else◌, ◌==◌,
}
use riochain.Prelude.Words.{u128_mod, wrapping_sub}
use riochain.Prelude.Maps.{exists}
use riochain.Prelude.Linked.{lookup, lookup-remove}
use riochain.Prelude.Outcome.{Returns}
use riochain.Assets.Types.{AccountId, AssetId, PermissionType, Assets, transferable}
use riochain.Assets.Module.{check_permission, make_transfer_with_event, burn_free}
use riochain.Assets.Calls
use riochain.Assets.Calls.{Chain, signed_by, no_hooks}
use riochain.Loan.Types.{LoanId, LoanPackage, Loan, Loans}
use riochain.Loan.Lending.{close_loan, settle_loan, repay_loan, check_loan_in_liquidation}
use riochain.Loan.Calls.{repay}

-- An asset that exists and may be transferred.
abbrev pub IsOpen : AssetId → Assets → Type 0
IsOpen a s = (exists (s.symbols a) ≡ true) × (s.restrictions a transferable ≡ false)

module _ (root who shop : AccountId) (loan : Loan) (pack : LoanPackage) (c : Chain Loans) where
  -- What the borrower, the shop and the assets need for the repayment to go through.
  pub record IsPayable : Type 0 where
    pub owner : loan.who ≡ who
    pub apart : who ≢ shop
    pub kinds : pack.loan_asset_id ≢ pack.collateral_asset_id
    pub loans_open : IsOpen pack.loan_asset_id c.assets
    pub collateral_open : IsOpen pack.collateral_asset_id c.assets
    pub funds : loan.loan_balance_total ≤ c.assets.free_balance pack.loan_asset_id who
    pub stock :
        loan.collateral_balance_available ≤ c.assets.free_balance pack.collateral_asset_id shop
    pub room : c.assets.free_balance pack.loan_asset_id shop + loan.loan_balance_total < u128_mod
    pub room_back :
        c.assets.free_balance pack.collateral_asset_id who + loan.collateral_balance_available
        < u128_mod
    pub bounded : c.assets.free_balance pack.loan_asset_id who < u128_mod
    pub bounded_stock : c.assets.free_balance pack.collateral_asset_id shop < u128_mod
    pub issued : loan.loan_balance_total ≤ c.assets.total_issuance pack.loan_asset_id
    pub bounded_issue : c.assets.total_issuance pack.loan_asset_id < u128_mod
    pub may_burn : check_permission pack.loan_asset_id root PermissionType.burn c.assets ≡ true

  settle_lem :
      IsPayable
      → Returns (settle_loan (no_hooks root) loan pack shop c) λ _ c'.
        (c'.pallet ≡ c.pallet)
        × (c'.assets.free_balance pack.loan_asset_id who + loan.loan_balance_total
            ≡ c.assets.free_balance pack.loan_asset_id who)
        × (c'.assets.free_balance pack.collateral_asset_id who
            ≡ c.assets.free_balance pack.collateral_asset_id who
              + loan.collateral_balance_available)
        × (c'.assets.total_issuance pack.loan_asset_id + loan.loan_balance_total
            ≡ c.assets.total_issuance pack.loan_asset_id)
  unfolding settle_loan Calls.burn check_permission make_transfer_with_event burn_free
  settle_lem h = ground arith

close_lem :
    (loan : Loan) (loan_id : LoanId) (l : Loans)
    → loan.id ≡ loan_id
    → loan.loan_balance_total ≤ l.total_loan
    → l.total_loan < u128_mod
    → ((other : LoanId)
        → lookup other (close_loan loan loan_id l).loans
          ≡ (if loan_id == other then none else lookup other l.loans))
      × ((close_loan loan loan_id l).total_loan + loan.loan_balance_total ≡ l.total_loan)
unfolding close_loan wrapping_sub
close_lem loan loan_id l own total small =
    (λ other. ground (arith, lookup-remove loan_id other l.loans), ground arith)

-- A borrower repays a loan in full: where the loan is his and known, its package is known, it is
-- not in liquidation, the pallet is running and the repayment is payable, the call succeeds. Then
-- the loan is gone and every other one is as it was, the borrower has paid the loan and has the
-- collateral back, the loan is burnt, and the total of loans has fallen by it.
-- The asset hooks do nothing, the loan is within the total, and the total is a balance.
pub repay_succeeds :
    (root who : AccountId) (loan_id : LoanId) (loan : Loan) (pack : LoanPackage) (c : Chain Loans)
    → c.pallet.paused ≡ false
    → lookup loan_id c.pallet.loans ≡ some loan
    → loan.id ≡ loan_id
    → c.pallet.loan_packages loan.package_id ≡ some pack
    → contains c.pallet.liquidating_loans loan_id ≡ false
    → loan.loan_balance_total ≤ c.pallet.total_loan
    → c.pallet.total_loan < u128_mod
    → IsPayable root who c.pallet.pawn_shop loan pack c
    → Returns (repay (no_hooks root) (signed_by who) loan_id c) λ _ c'.
      ((other : LoanId)
        → lookup other c'.pallet.loans
          ≡ (if loan_id == other then none else lookup other c.pallet.loans))
      × (c'.pallet.total_loan + loan.loan_balance_total ≡ c.pallet.total_loan)
      × (c'.assets.free_balance pack.loan_asset_id who + loan.loan_balance_total
          ≡ c.assets.free_balance pack.loan_asset_id who)
      × (c'.assets.free_balance pack.collateral_asset_id who
          ≡ c.assets.free_balance pack.collateral_asset_id who + loan.collateral_balance_available)
      × (c'.assets.total_issuance pack.loan_asset_id + loan.loan_balance_total
          ≡ c.assets.total_issuance pack.loan_asset_id)
unfolding repay repay_loan check_loan_in_liquidation
repay_succeeds root who loan_id loan pack c running found own packed free total small h =
    let closed : Chain Loans = record c { pallet = close_loan loan loan_id c.pallet } in
    let payable : IsPayable root who c.pallet.pawn_shop loan pack closed = record {
      owner = h.owner;
      apart = h.apart;
      kinds = h.kinds;
      loans_open = h.loans_open;
      collateral_open = h.collateral_open;
      funds = h.funds;
      stock = h.stock;
      room = h.room;
      room_back = h.room_back;
      bounded = h.bounded;
      bounded_stock = h.bounded_stock;
      issued = h.issued;
      bounded_issue = h.bounded_issue;
      may_burn = h.may_burn;
    } in
    ground (
      arith,
      settle_lem root who c.pallet.pawn_shop loan pack closed payable,
      close_lem loan loan_id c.pallet own total small,
    )
