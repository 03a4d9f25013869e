-- ===== src/Loan/Runs/Booked.antt =====
-- Every sequence of calls and blocks without a liquidated loan keeps the books of the loans.
use riochain.Prelude.{ℕ, ◌+◌, ◌^◌, ◌<◌, List, [], ◌∷◌, arith, Option-cases, inl, inr}
use riochain.Prelude.Words.{u128_mod}
use riochain.Prelude.Outcome.{Outcome, ok, err, panic, Keeps}
use riochain.Assets.Types.{AccountId, Balance}
use riochain.Assets.Calls.{Chain, Origin, no_hooks}
use riochain.Assets.Runs.{settle}
use riochain.Loan.Types.{LoanPackageId, LoanId, Moment, Loans}
use riochain.Loan.Calls
use riochain.Loan.Books.{IsKept}
use riochain.Loan.Kept.{draw_from_loan-IsKept, repay_loan-IsKept, add_loan_collateral-IsKept}
use riochain.Loan.Granted.{apply_for_loan-IsKept}
use riochain.Loan.Checked.{on_initialize-IsKept}
use riochain.Loan.Credit.{loan_at}
use riochain.Loan.Totals.{lookup_id}
use riochain.Loan.Packages.{create_loan_package, disable_loan_package, get_next_loan_package_id}
use riochain.Loan.Runs.{LoanCall, dispatch, Step, called, initialized, step, run}

-- The call does not close a liquidated loan, and an application asks for a `u128` while ids remain.
abbrev pub IsBooking : LoanCall → Chain Loans → Type 0
IsBooking (LoanCall.mark_liquidated id auction) c = ⊥
IsBooking (LoanCall.apply collateral loan id) c =
    (loan < u128_mod) × (c.pallet.next_loan_id + 1 < 2 ^ 64)
IsBooking _ c = Unit

module _ (root : AccountId) where
  -- The steps so far are bookings where they start.
  abbrev pub AreBookings : List Step → Chain Loans → Type 0
  AreBookings [] c = Unit
  AreBookings (called now origin call ∷ rest) c =
      IsBooking call c
      × AreBookings rest (settle c (step (no_hooks root) (called now origin call) c))
  AreBookings (initialized now ∷ rest) c =
      AreBookings rest (settle c (step (no_hooks root) (initialized now) c))

  apply-IsKept :
      (now : Moment) (origin : Origin) (collateral loan : Balance) (id : LoanPackageId)
      (c : Chain Loans)
      → loan < u128_mod
      → c.pallet.next_loan_id + 1 < 2 ^ 64
      → IsKept c.pallet
      → Keeps (Calls.apply (no_hooks root) now origin collateral loan id c) (λ c'. IsKept c'.pallet)
  unfolding Calls.apply
  apply-IsKept now origin collateral loan id c small room h = elim (Option-cases origin.signer) [
    | inl e ↦ ground arith
    | inr (who, e) ↦
        ground (arith, apply_for_loan-IsKept root now who id collateral loan c small room h)
  ]

  draw-IsKept :
      (origin : Origin) (id : LoanId) (amount : Balance) (c : Chain Loans)
      → IsKept c.pallet
      → Keeps (Calls.draw (no_hooks root) origin id amount c) (λ c'. IsKept c'.pallet)
  unfolding Calls.draw
  draw-IsKept origin id amount c h = elim (Option-cases origin.signer) [
    | inl e ↦ ground arith
    | inr (who, e) ↦ ground (arith, draw_from_loan-IsKept root who id amount c h)
  ]

  repay-IsKept :
      (origin : Origin) (id : LoanId) (c : Chain Loans)
      → IsKept c.pallet
      → Keeps (Calls.repay (no_hooks root) origin id c) (λ c'. IsKept c'.pallet)
  unfolding Calls.repay
  repay-IsKept origin id c h = elim (Option-cases origin.signer) [
    | inl e ↦ ground arith
    | inr (who, e) ↦ ground (arith, repay_loan-IsKept root who id c h)
  ]

  add_collateral-IsKept :
      (origin : Origin) (id : LoanId) (amount : Balance) (c : Chain Loans)
      → IsKept c.pallet
      → Keeps (Calls.add_collateral origin id amount c) (λ c'. IsKept c'.pallet)
  unfolding Calls.add_collateral
  add_collateral-IsKept origin id amount c h =
      let loan = loan_at id c.pallet in
      ground (
        arith,
        lookup_id id loan c.pallet.loans h.0.0,
        add_loan_collateral-IsKept loan loan.who amount c,
      )

  create_package-IsKept :
      (origin : Origin) (terms rate : ℕ) (min_rio : Balance) (c : Chain Loans)
      → IsKept c.pallet
      → Keeps (Calls.create_package origin terms rate min_rio c) (λ c'. IsKept c'.pallet)
  unfolding Calls.create_package create_loan_package get_next_loan_package_id
  create_package-IsKept origin terms rate min_rio c h = ground arith

  disable_package-IsKept :
      (origin : Origin) (id : LoanPackageId) (c : Chain Loans)
      → IsKept c.pallet
      → Keeps (Calls.disable_package origin id c) (λ c'. IsKept c'.pallet)
  unfolding Calls.disable_package disable_loan_package
  disable_package-IsKept origin id c h = ground arith

  dispatch-IsKept :
      (now : Moment) (origin : Origin) (call : LoanCall) (c : Chain Loans)
      → IsBooking call c
      → IsKept c.pallet
      → Keeps (dispatch (no_hooks root) now origin call c) (λ c'. IsKept c'.pallet)
  unfolding dispatch
  dispatch-IsKept now origin LoanCall.pause c fits h = unfold Calls.pause in ground arith
  dispatch-IsKept now origin LoanCall.resume c fits h = unfold Calls.resume in ground arith
  dispatch-IsKept now origin (LoanCall.set_collateral_asset_id id) c fits h =
      unfold Calls.set_collateral_asset_id in ground arith
  dispatch-IsKept now origin (LoanCall.set_loan_asset_id id) c fits h =
      unfold Calls.set_loan_asset_id in ground arith
  dispatch-IsKept now origin (LoanCall.set_global_ltv_limit ltv) c fits h =
      unfold Calls.set_global_ltv_limit in ground arith
  dispatch-IsKept now origin (LoanCall.set_global_liquidation_threshold ltv) c fits h =
      unfold Calls.set_global_liquidation_threshold in ground arith
  dispatch-IsKept now origin (LoanCall.set_global_warning_threshold ltv) c fits h =
      unfold Calls.set_global_warning_threshold in ground arith
  dispatch-IsKept now origin (LoanCall.set_loan_cap balance) c fits h =
      unfold Calls.set_loan_cap in ground arith
  dispatch-IsKept now origin (LoanCall.set_liquidation_account who) c fits h =
      unfold Calls.set_liquidation_account in ground arith
  dispatch-IsKept now origin (LoanCall.set_penalty_rate rate) c fits h =
      unfold Calls.set_penalty_rate in ground arith
  dispatch-IsKept now origin (LoanCall.set_price price) c fits h =
      unfold Calls.set_price in ground arith
  dispatch-IsKept now origin (LoanCall.create_package terms rate min_rio) c fits h =
      create_package-IsKept origin terms rate min_rio c h
  dispatch-IsKept now origin (LoanCall.disable_package id) c fits h =
      disable_package-IsKept origin id c h
  dispatch-IsKept now origin (LoanCall.apply collateral loan id) c fits h =
      apply-IsKept now origin collateral loan id c fits.0 fits.1 h
  dispatch-IsKept now origin (LoanCall.draw id amount) c fits h = draw-IsKept origin id amount c h
  dispatch-IsKept now origin (LoanCall.add_collateral id amount) c fits h =
      add_collateral-IsKept origin id amount c h
  dispatch-IsKept now origin (LoanCall.mark_liquidated id auction) c fits h = absurd fits
  dispatch-IsKept now origin (LoanCall.repay id) c fits h = repay-IsKept origin id c h

  settled :
      (c : Chain Loans) (o : Outcome (Chain Loans) Unit)
      → IsKept c.pallet
      → Keeps o (λ c'. IsKept c'.pallet)
      → IsKept (settle c o).pallet
  settled c (ok a c') h k = k
  settled c (err e c') h k = k
  settled c panic h k = h

  -- After any sequence of calls and blocks, by any origins, failing, panicking or not, the booked
  -- total is the sum of the stored loans, as far as a balance goes. Each loan is stored once, under
  -- its own id, fits a `u128`, and has an id below the next one. This holds at the start, no call
  -- closes a liquidated loan, an application asks for a `u128` while ids remain, and the asset hooks
  -- do nothing. A panicking call or block is left out.
  pub run-IsKept :
      (steps : List Step) (c : Chain Loans)
      → AreBookings steps c
      → IsKept c.pallet
      → IsKept (run (no_hooks root) steps c).pallet
  unfolding run step
  run-IsKept [] c fits h = h
  run-IsKept (called now origin call ∷ rest) c fits h =
      let o = dispatch (no_hooks root) now origin call c in
      run-IsKept rest (settle c o) fits.1
        (settled c o h (dispatch-IsKept now origin call c fits.0 h))
  run-IsKept (initialized now ∷ rest) c fits h =
      let o = Calls.on_initialize now c in
      run-IsKept rest (settle c o) fits (settled c o h (on_initialize-IsKept now c h))
