-- ===== src/Loan/Lending.antt =====
-- Applying for a loan, drawing more from it, adding collateral, and repaying.
use riochain.Prelude.{◌/◌, Bool, List, [], ◌∷◌, ◌++◌, leb, ◌==◌, not, if◌then◌else◌, contains}
use riochain.Prelude.Words.{wrapping_add, wrapping_sub, wrapping_mul}
use riochain.Prelude.Maps.{update, exists, get_or}
use riochain.Prelude.Linked.{lookup, insert, remove}
use riochain.Prelude.Outcome.{ok, Action, fail, ensure, or_else, ◌>>=◌, ◌>>◌}
use riochain.Assets.Types.{AccountId, AssetId, Balance}
use riochain.Assets.Module.{make_transfer_with_event}
use riochain.Assets.Calls
use riochain.Assets.Calls.{Chain, on_assets, root_origin, Trait}
use riochain.Loan.Types.{
  ltv_prec, price_prec, LoanId, LoanPackage, Loan, default_package, default_loan, Event, Loans,
  Call, pallet, change, deposit_event,
}
use riochain.Loan.Terms.{get_interest}

abbrev pub transfer : AssetId → AccountId → AccountId → Balance → Call
transfer asset_id from to amount = on_assets (make_transfer_with_event asset_id from to amount)

abbrev pub free : AssetId → AccountId → Action (Chain Loans) Balance
free asset_id who c = ok (c.assets.free_balance asset_id who) c

-- `filter(|ele| *ele != loan_id)`
unfoldable pub without : LoanId → List LoanId → List LoanId
without loan_id [] = []
without loan_id (ele ∷ rest) =
    let kept = without loan_id rest in if ele == loan_id then kept else ele ∷ kept

-- The bookings of `repay_loan` before the assets move, and the callback that undoes them.
unfoldable pub close_loan : Loan → LoanId → Loans → Loans
unfolding without wrapping_sub
close_loan loan loan_id l = record l {
  loans = remove loan.id l.loans;
  loans_by_account =
      update l.loans_by_account loan.who (without loan_id (l.loans_by_account loan.who));
  total_loan = wrapping_sub l.total_loan loan.loan_balance_total;
  total_collateral = wrapping_sub l.total_collateral loan.collateral_balance_available;
}

unfoldable pub revert_callback : Loan → Loans → Loans
unfolding wrapping_add
revert_callback loan l = record l {
  loans = insert loan.id loan l.loans;
  loans_by_account =
      update l.loans_by_account loan.who (l.loans_by_account loan.who ++ loan.id ∷ []);
  total_loan = wrapping_add l.total_loan loan.loan_balance_total;
  total_collateral = wrapping_add l.total_collateral loan.collateral_balance_available;
}

unfoldable pub check_loan_in_liquidation : LoanId → Loans → Bool
check_loan_in_liquidation loan_id l = contains l.liquidating_loans loan_id

-- The credit that is left: the subtraction wraps where the loan exceeds what its collateral allows.
unfoldable pub available_credit : Loan → Loans → Balance
unfolding wrapping_sub wrapping_mul
available_credit loan l =
    let limit =
      wrapping_mul (wrapping_mul loan.collateral_balance_available l.current_btc_price)
        l.global_ltv_limit in
    wrapping_sub (limit / ltv_prec / price_prec) loan.loan_balance_total

-- The bookings of a draw.
unfoldable pub book_draw : LoanId → Balance → Balance → Loans → Loans
unfolding wrapping_add
book_draw loan_id amount interest l =
    let v = get_or default_loan (lookup loan_id l.loans) in
    let more = record v { loan_balance_total = wrapping_add v.loan_balance_total amount } in
    record l {
      loans = insert loan_id more l.loans;
      total_loan = wrapping_add l.total_loan amount;
      total_profit = wrapping_add l.total_profit interest;
    }

module _ (t : Trait Loans) where
  -- The assets' part of `repay_loan`: the loan goes to the shop, the collateral comes back, and
  -- the loan is burnt. A failing transfer undoes the bookings, and the second the first transfer.
  unfoldable pub settle_loan : Loan → LoanPackage → AccountId → Call
  unfolding revert_callback
  settle_loan loan pack pawn_shop = do
    or_else (transfer pack.loan_asset_id loan.who pawn_shop loan.loan_balance_total)
        λ e. do change (revert_callback loan); fail e
    or_else (transfer pack.collateral_asset_id pawn_shop loan.who loan.collateral_balance_available)
        λ e. do
          change (revert_callback loan)
          transfer pack.loan_asset_id pawn_shop loan.who loan.loan_balance_total
          fail e
    Calls.burn t root_origin pack.loan_asset_id pawn_shop loan.loan_balance_total

  unfoldable pub repay_loan : AccountId → LoanId → Call
  unfolding check_loan_in_liquidation close_loan settle_loan
  repay_loan who loan_id = do
    pawn_shop ← pallet (λ l. l.pawn_shop)
    found ← pallet (λ l. lookup loan_id l.loans)
    ensure (exists found) "invalid loan id"
    let loan = get_or default_loan found
    ensure (loan.who == who) "not owner of the loan"
    pack? ← pallet (λ l. l.loan_packages loan.package_id)
    ensure (exists pack?) "invalid package id in loan"
    let pack = get_or default_package pack?
    funds ← free pack.loan_asset_id who
    ensure (leb loan.loan_balance_total funds) "not enough asset to repay"
    stock ← free pack.collateral_asset_id pawn_shop
    ensure (leb loan.collateral_balance_available stock) "not enough collateral asset in shop"
    liquidating ← pallet (check_loan_in_liquidation loan_id)
    ensure (not liquidating) "loan is in liquidation"
    change (close_loan loan loan_id)
    settle_loan loan pack pawn_shop
    deposit_event
        (Event.loan_repaid loan_id loan.loan_balance_total loan.collateral_balance_available)

  -- The interest is minted to the pool and the rest to the borrower; if the second fails, the first
  -- is burnt.
  unfoldable pub pay_out : LoanPackage → AccountId → AccountId → Balance → Balance → Call
  pay_out pack profit_pool who interest rest = do
    Calls.mint t root_origin pack.loan_asset_id profit_pool interest
    or_else (Calls.mint t root_origin pack.loan_asset_id who rest)
        λ e. do Calls.burn t root_origin pack.loan_asset_id profit_pool interest; fail e

  unfoldable pub draw_from_loan : AccountId → LoanId → Balance → Call
  unfolding available_credit get_interest pay_out book_draw wrapping_sub
  draw_from_loan who loan_id amount = do
    found ← pallet (λ l. lookup loan_id l.loans)
    ensure (exists found) "invalid loan id"
    let loan = get_or default_loan found
    ensure (loan.who == who) "can't draw from others loan"
    credit ← pallet (available_credit loan)
    ensure (leb amount credit) "short of available credit"
    profit_pool ← pallet (λ l. l.profit_pool)
    pack ← pallet (λ l. get_or default_package (l.loan_packages loan.package_id))
    let interest = get_interest pack amount
    pay_out pack profit_pool who interest (wrapping_sub amount interest)
    change (book_draw loan_id amount interest)
    deposit_event (Event.loan_drawn loan_id amount)

unfoldable pub add_loan_collateral : Loan → AccountId → Balance → Call
unfolding wrapping_add
add_loan_collateral loan from amount = do
  pawnshop ← pallet (λ l. l.pawn_shop)
  pack ← pallet (λ l. get_or default_package (l.loan_packages loan.package_id))
  funds ← free pack.collateral_asset_id from
  ensure (leb amount funds) "not enough collateral asset in free balance"
  transfer pack.collateral_asset_id from pawnshop amount
  change λ l.
      let v = get_or default_loan (lookup loan.id l.loans) in
      let more = record v {
        collateral_balance_original = wrapping_add v.collateral_balance_original amount;
        collateral_balance_available = wrapping_add v.collateral_balance_available amount;
      } in
      record l {
        loans = insert loan.id more l.loans;
        total_collateral = wrapping_add l.total_collateral amount;
      }
  deposit_event (Event.add_collateral loan.id amount)
