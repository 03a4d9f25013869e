-- ===== src/Price/Ending.antt =====
-- A report and the end of a block in rio-price/src/lib.rs come to an end, whatever was reported.
use riochain.Prelude.{Option, none, some, arith, length, ◌==◌, Bool-cases, inl, inr}
use riochain.Prelude.Outcome.{Leaves}
use riochain.Assets.Types.{AccountId}
use riochain.Oracle.{OracleMixedIn}
use riochain.Price.{Price, Prices, prices_of, on_finalize, report}
use riochain.Price.Median.{median_total}

module _ {W : Type 0} (oracle : OracleMixedIn W) (on_change : Price → W → W) where
  pub report_ends :
      (reporter : Option AccountId) (price : Price) (s : Prices W)
      → Leaves (report oracle on_change reporter price s) (λ _. Unit)
  unfolding report
  report_ends none price s = tt
  report_ends (some who) price s = tt

  pub on_finalize_returns : (s : Prices W) → Leaves (on_finalize oracle on_change s) (λ _. Unit)
  unfolding on_finalize
  on_finalize_returns s = elim (Bool-cases (length (prices_of s.price_reports) == 0)) [
    | inl empty ↦ ground arith
    | inr reported ↦
        let (m, e) = median_total (prices_of s.price_reports) (ground arith) in
        elim (Bool-cases (s.current_price == m)) [
          | inl same ↦ ground arith
          | inr changed ↦ ground arith
        ]
  ]
