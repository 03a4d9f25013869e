-- ===== src/Loan/Liquidated.antt =====
-- What a loan leaves in the books once it is liquidated.
use riochain.Prelude.{◌+◌, ◌≤◌, ◌≡◌, true, false, none, some, arith, contains}
use riochain.Prelude.Words.{checked_sub}
use riochain.Prelude.Maps.{exists, get_or}
use riochain.Prelude.Linked.{lookup, lookup-remove}
use riochain.Prelude.Outcome.{Returns}
use riochain.Assets.Types.{AccountId, AssetId, Balance, transferable}
use riochain.Assets.Module.{
  make_transfer, make_transfer_with_event, should_exist, ensure_can_withdraw, can_do,
}
use riochain.Assets.Calls.{Chain, Origin}
use riochain.Loan.Types.{Loan, Loans, default_package}
use riochain.Loan.Lending.{transfer, check_loan_in_liquidation}
use riochain.Loan.Liquidation.{mark_loan_liquidated, forget_loan}
use riochain.Loan.Calls.{mark_liquidated}
use riochain.Loan.Totals.{IsKeyed, sum_loans, sum-remove}

-- A loan in liquidation that was sold for exactly what it owes, and the funds to pay that.
pub record IsSold (origin : Origin) (loan : Loan) (c : Chain Loans) : Type 0 where
  pub running : c.pallet.paused ≡ false
  pub signed : origin.signer ≡ some c.pallet.liquidation_account
  pub stored : lookup loan.id c.pallet.loans ≡ some loan
  pub liquidating : contains c.pallet.liquidating_loans loan.id ≡ true
  pub known :
      (let asset =
          (get_or default_package (c.pallet.loan_packages loan.package_id)).loan_asset_id in
        exists (c.assets.symbols asset) ≡ true)
  pub free :
      (let asset =
          (get_or default_package (c.pallet.loan_packages loan.package_id)).loan_asset_id in
        c.assets.restrictions asset transferable ≡ false)
  pub funds :
      (let asset =
          (get_or default_package (c.pallet.loan_packages loan.package_id)).loan_asset_id in
        loan.loan_balance_total ≤ c.assets.free_balance asset c.pallet.liquidation_account)

transfer_returns :
    (a : AssetId) (from to : AccountId) (amount : Balance) (c : Chain Loans)
    → exists (c.assets.symbols a) ≡ true
    → c.assets.restrictions a transferable ≡ false
    → amount ≤ c.assets.free_balance a from
    → Returns (transfer a from to amount c) (λ _ c'. c'.pallet ≡ c.pallet)
unfolding make_transfer_with_event make_transfer should_exist ensure_can_withdraw can_do checked_sub
transfer_returns a from to amount c known free funds = ground arith

-- A liquidated loan is gone, and the booked total still counts it: the total stays what it was,
-- while the sum of the stored loans falls by the loan. The loan is stored under its id, each id
-- once, is in liquidation, and was sold for exactly what it owes, which the liquidation account has.
pub mark_liquidated_overbooks :
    (origin : Origin) (loan : Loan) (c : Chain Loans)
    → IsSold origin loan c
    → IsKeyed c.pallet.loans
    → Returns (mark_liquidated origin loan.id loan.loan_balance_total c) λ _ c'.
      (lookup loan.id c'.pallet.loans ≡ none)
      × (c'.pallet.total_loan ≡ c.pallet.total_loan)
      × (sum_loans c'.pallet.loans + loan.loan_balance_total ≡ sum_loans c.pallet.loans)
unfolding mark_liquidated mark_loan_liquidated check_loan_in_liquidation forget_loan checked_sub
mark_liquidated_overbooks origin loan c h keyed =
    let asset = (get_or default_package (c.pallet.loan_packages loan.package_id)).loan_asset_id in
    ground (
      arith,
      h.running,
      h.signed,
      h.stored,
      h.liquidating,
      transfer_returns asset c.pallet.liquidation_account c.pallet.pawn_shop loan.loan_balance_total
          c h.known h.free h.funds,
      sum-remove loan.id loan c.pallet.loans keyed h.stored,
      lookup-remove {V = Loan} loan.id loan.id c.pallet.loans,
    )
