-- ===== src/Loan/Safety.antt =====
-- What the lending rules guarantee, and where the per-block check stops.
use riochain.Prelude.{ℕ, ◌+◌, ◌*◌, ◌/◌, ◌≤◌, ◌<◌, ◌≡◌, ◌⊎◌, some, arith, Option-cases, inl, inr}
use native.Mathlib.Nat.{div-lt_iff_lt-mul}
use riochain.Prelude.Words.{u128_mod, checked_sub, wrapping_add, wrapping_mul}
use riochain.Prelude.Maps.{get_or}
use riochain.Prelude.Outcome.{ok, err, panic, Returns, Leaves, ◌>>◌}
use riochain.Assets.Types.{AccountId, Balance}
use riochain.Assets.Calls.{Chain, Trait, Origin}
use riochain.Loan.Types.{
  ltv_prec, price_prec, LoanPackageId, LoanId, Moment, Loan, default_package, Loans,
}
use riochain.Loan.Terms.{expire_then_update, expiration_penalty, expiration_interest, get_ltv}
use riochain.Loan.Packages.{get_collateral_loan, disable_loan_package}
use riochain.Loan.Apply.{apply_for_loan}
use riochain.Loan.Calls.{disable_package, apply}
use riochain.Loan.Liquidation.{mark_loan_liquidated}
use riochain.Loan.Blocks.{Round, Fees, expire_loan}

module _ (t : Trait Loans) (now : Moment) where
  -- No loan can be made from a package after it is disabled: whatever the origins and the amounts,
  -- disabling a package and then applying for a loan from it leaves every loan, the totals and all
  -- assets as they were, also where a call fails, and in any runtime. A call that fails ends the
  -- sequence.
  pub disable_package_refuses :
      (root origin : Origin) (package_id : LoanPackageId) (collateral loan : Balance)
      (c : Chain Loans)
      → Leaves
          ((disable_package root package_id >> apply t now origin collateral loan package_id) c)
          λ c'.
            (c'.assets ≡ c.assets)
            × (c'.pallet.loans ≡ c.pallet.loans)
            × (c'.pallet.total_loan ≡ c.pallet.total_loan)
            × (c'.pallet.total_collateral ≡ c.pallet.total_collateral)
  unfolding disable_package disable_loan_package apply apply_for_loan
  disable_package_refuses root origin package_id collateral loan c =
      elim (Option-cases origin.signer) [ inl e ↦ ground arith | inr (who, e) ↦ ground arith ]

div_div_cases :
    (n a b k : ℕ)
    → 0 < a
    → 0 < b
    → ((n / a / b ≤ k) × (n < (k + 1) * b * a)) ⊎ ((k < n / a / b) × ((k + 1) * b * a ≤ n))
div_div_cases n a b k ha hb = grind (
  arith,
  div-lt_iff_lt-mul {k = a} {x = n} {y = (k + 1) * b} ha,
  div-lt_iff_lt-mul {k = b} {x = n / a} {y = k + 1} hb,
)

module _ (c : Chain Loans) where
  -- With both amounts given and no overflow, a loan is granted as asked, and nothing changes,
  -- exactly if it is worth less than one LTV step more than the limit allows on its collateral;
  -- otherwise the call is refused.
  pub get_collateral_loan_decides :
      (collateral loan : Balance)
      → 0 < collateral
      → 0 < loan
      → 0 < c.pallet.current_btc_price
      → loan * ltv_prec * price_prec < u128_mod
      → let bound = (c.pallet.global_ltv_limit + 1) * c.pallet.current_btc_price * collateral in
        ((loan * ltv_prec * price_prec < bound)
          × (get_collateral_loan collateral loan c
              ≡ ok (record { collateral_amount = collateral; loan_amount = loan }) c))
        ⊎ ((bound ≤ loan * ltv_prec * price_prec)
            × (get_collateral_loan collateral loan c ≡ err "over LTV limit" c))
  unfolding get_collateral_loan wrapping_mul
  get_collateral_loan_decides collateral loan backed lent price fits = ground (
    arith,
    div_div_cases (loan * ltv_prec * price_prec) collateral c.pallet.current_btc_price
        c.pallet.global_ltv_limit backed price,
  )

  -- An expired loan whose collateral is used up has no new LTV.
  pub expire_loan_panics :
      (r : Round) (fees : Fees) (loan_id : LoanId) (loan : Loan) (penalty interest : Balance)
      → (let pack = get_or default_package (c.pallet.loan_packages loan.package_id) in
          expiration_interest loan pack r.btc_price ≡ some interest)
      → expiration_penalty loan c.pallet.penalty_rate r.btc_price ≡ some penalty
      → interest + penalty < u128_mod
      → loan.collateral_balance_available ≤ interest + penalty
      → expire_loan r fees loan_id loan c ≡ panic
  unfolding expire_loan expire_then_update get_ltv wrapping_add wrapping_mul
  expire_loan_panics r fees loan_id loan penalty interest hi hp small spent = ground arith

  -- A liquidation whose auction brought less than the loan never succeeds: every such call fails
  -- or panics.
  mark_loan_liquidated_short :
      (loan : Loan) (account : AccountId) (auction : Balance)
      → auction < loan.loan_balance_total
      → ¬ (Returns (mark_loan_liquidated loan account auction c) λ _ _. Unit {0})
  unfolding mark_loan_liquidated checked_sub
  mark_loan_liquidated_short loan account auction short r = ground arith
