-- ===== src/Loan/Credit.antt =====
-- How much may be lent on a collateral: at the application, and when more is drawn.
use riochain.Prelude.{
  Option-cases, ℕ, ◌+◌, ◌-◌, ◌*◌, ◌/◌, ◌≤◌, ◌<◌, ◌≡◌, ◌⊎◌, inl, inr, none, arith,
}
use riochain.Prelude.Words.{u128_mod, wrapping_add, wrapping_mul, wrapping_sub}
use riochain.Prelude.Maps.{get_or}
use riochain.Prelude.Linked.{lookup, lookup-insert}
use riochain.Prelude.Outcome.{Returns, Leaves}
use riochain.Assets.Types.{AccountId, Balance}
use riochain.Assets.Calls
use riochain.Assets.Module.{mint_free, burn_free}
use riochain.Assets.Calls.{Chain, Trait, Origin, no_hooks}
use riochain.Loan.Types.{
  ltv_prec, price_prec, LoanPackage, LoanId, Loan, default_package, default_loan, Loans,
}
use riochain.Loan.Terms.{get_interest}
use riochain.Loan.Lending.{available_credit, pay_out, draw_from_loan, book_draw}
use riochain.Loan.Calls.{draw, set_global_liquidation_threshold, set_global_warning_threshold}

-- What a collateral allows at the current price: its value times the LTV limit.
abbrev pub limit_of : Balance → Loans → Balance
limit_of collateral l =
    collateral * l.current_btc_price * l.global_ltv_limit / ltv_prec / price_prec

-- Where the loan is within its limit, the credit is the rest of the limit. Where the loan exceeds
-- its limit, the subtraction wraps: the credit is the whole range of a balance less the excess. In
-- both cases the loan is a balance, and the products of its collateral with the price and the LTV
-- limit fit one.
pub available_credit_lem :
    (loan : Loan) (l : Loans)
    → loan.collateral_balance_available * l.current_btc_price < u128_mod
    → loan.collateral_balance_available * l.current_btc_price * l.global_ltv_limit < u128_mod
    → loan.loan_balance_total < u128_mod
    → let limit = limit_of loan.collateral_balance_available l in
      (loan.loan_balance_total ≤ limit)
        × (available_credit loan l + loan.loan_balance_total ≡ limit)
      ⊎ (limit < loan.loan_balance_total)
        × (available_credit loan l + (loan.loan_balance_total - limit) ≡ u128_mod)
unfolding available_credit wrapping_mul wrapping_sub
available_credit_lem loan l small fits total = ground arith

-- The two threshold setters are exchanged: for any origin and state, the setter of the liquidation
-- threshold leaves that threshold as it is, and the setter of the warning threshold leaves the
-- warning threshold as it is, and a root origin writes the other one.
thresholds_exchanged :
    (origin : Origin) (threshold : ℕ) (c : Chain Loans)
    → Leaves
        (set_global_liquidation_threshold origin threshold c)
        (λ c'. c'.pallet.global_liquidation_threshold ≡ c.pallet.global_liquidation_threshold)
      × Leaves
          (set_global_warning_threshold origin threshold c)
          (λ c'. c'.pallet.global_warning_threshold ≡ c.pallet.global_warning_threshold)
      × ((origin.is_root ≡ none)
          ⊎ (Returns
                (set_global_liquidation_threshold origin threshold c)
                (λ _ c'. c'.pallet.global_warning_threshold ≡ threshold)
              × Returns
                  (set_global_warning_threshold origin threshold c)
                  (λ _ c'. c'.pallet.global_liquidation_threshold ≡ threshold)))
unfolding set_global_liquidation_threshold set_global_warning_threshold
thresholds_exchanged origin threshold c = ground arith

-- A loan is within what its collateral allows, at amounts whose products fit a balance.
abbrev pub IsWithin : Loan → Loans → Type 0
IsWithin loan l =
    (loan.collateral_balance_available * l.current_btc_price * l.global_ltv_limit < u128_mod)
    × (loan.loan_balance_total ≤ limit_of loan.collateral_balance_available l)

abbrev pub loan_at : LoanId → Loans → Loan
loan_at loan_id l = get_or default_loan (lookup loan_id l.loans)

book_draw_lem :
    (loan_id : LoanId) (amount interest : Balance) (l : Loans)
    → (loan_at loan_id l).collateral_balance_available * l.current_btc_price < u128_mod
    → IsWithin (loan_at loan_id l) l
    → amount ≤ available_credit (loan_at loan_id l) l
    → let l' = book_draw loan_id amount interest l in IsWithin (loan_at loan_id l') l'
unfolding book_draw wrapping_add
book_draw_lem loan_id amount interest l small h k =
    let loan = loan_at loan_id l in
    let more : Loan = record loan {
      loan_balance_total = wrapping_add loan.loan_balance_total amount;
    } in
    ground
      (arith, available_credit_lem loan l small h.0, lookup-insert loan_id loan_id more l.loans)

module _ (root : AccountId) where
  pub pay_out_lem :
      (pack : LoanPackage) (profit_pool who : AccountId) (interest rest : Balance) (c : Chain Loans)
      → Leaves
          (pay_out (no_hooks root) pack profit_pool who interest rest c)
          (λ c'. c'.pallet ≡ c.pallet)
  unfolding pay_out Calls.mint Calls.burn mint_free burn_free
  pay_out_lem pack profit_pool who interest rest c = ground arith

  draw_from_loan-IsWithin :
      (who : AccountId) (loan_id : LoanId) (amount : Balance) (c : Chain Loans)
      → (loan_at loan_id c.pallet).collateral_balance_available * c.pallet.current_btc_price
        < u128_mod
      → IsWithin (loan_at loan_id c.pallet) c.pallet
      → Leaves
          (draw_from_loan (no_hooks root) who loan_id amount c)
          (λ c'. IsWithin (loan_at loan_id c'.pallet) c'.pallet)
  unfolding draw_from_loan
  draw_from_loan-IsWithin who loan_id amount c small h =
      let l = c.pallet in
      let loan = loan_at loan_id l in
      let pack = get_or default_package (l.loan_packages loan.package_id) in
      let interest = get_interest pack amount in
      ground (
        arith,
        pay_out_lem pack l.profit_pool who interest (wrapping_sub amount interest) c,
        book_draw_lem loan_id amount interest l small h,
      )

  -- Drawing keeps a loan within the limit of its collateral, whatever the call's result, if the
  -- loan was within it and the products of its collateral with the price and the LTV limit fit a
  -- balance, in a runtime whose asset hooks do nothing.
  pub draw-IsWithin :
      (origin : Origin) (loan_id : LoanId) (amount : Balance) (c : Chain Loans)
      → (loan_at loan_id c.pallet).collateral_balance_available * c.pallet.current_btc_price
        < u128_mod
      → IsWithin (loan_at loan_id c.pallet) c.pallet
      → Leaves
          (draw (no_hooks root) origin loan_id amount c)
          (λ c'. IsWithin (loan_at loan_id c'.pallet) c'.pallet)
  unfolding draw
  draw-IsWithin origin loan_id amount c small h = elim (Option-cases origin.signer) [
    | inl e ↦ ground arith
    | inr (who, e) ↦ ground (arith, draw_from_loan-IsWithin who loan_id amount c small h)
  ]
