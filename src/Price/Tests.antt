-- ===== src/Price/Tests.antt =====
-- The theorems on `rio-price` and `rio-oracle` at three reporters, one of whom reports far too high.
use riochain.Prelude.{◌≤◌, ◌≡◌, none, some, [], ◌∷◌, arith, ◌==◌, if◌then◌else◌}
use riochain.Prelude.Outcome.{Returns}
use riochain.Assets.Types.{AccountId}
use riochain.Oracle.{Oracle, is_valid, mixed_in}
use riochain.Price.{Price, Prices, median, on_finalize}
use riochain.Price.Median.{median_robust}
use riochain.Price.Reports.{price_by, on_finalize_robust}

-- Reporters 1 and 2 were witnessed at height 3, reporter 3 at height 20.
abbrev world : Oracle
world = record { oracles = 1 ∷ 2 ∷ 3 ∷ []; witness_report = λ who. if who == 3 then 20 else 3 }

abbrev three_reports : Prices Oracle
three_reports = record {
  current_price = 90;
  price_reports =
      record { reporter = 1; price = 100 }
      ∷ record { reporter = 2; price = 104 }
      ∷ record { reporter = 3; price = 9000 }
      ∷ [];
  events = [];
  world = world;
}

-- A listener that does nothing.
abbrev unheard : Price → Oracle → Oracle
unheard price w = w

on_finalize_robust_example : Returns (on_finalize (mixed_in 10 21) unheard three_reports) λ _ s'.
    (median (100 ∷ 104 ∷ 9000 ∷ []) ≡ some s'.current_price)
    × (100 ≤ s'.current_price)
    × (s'.current_price ≤ 104)
    × (s'.world ≡ (
        if three_reports.current_price == s'.current_price
        then three_reports.world
        else unheard s'.current_price three_reports.world))
    × ((who : AccountId)
        → price_by who s'.price_reports ≡ (
            if is_valid 10 21 who s'.world then price_by who three_reports.price_reports else none))
on_finalize_robust_example =
    on_finalize_robust (mixed_in 10 21) unheard 100 104 three_reports (ground arith) (ground arith)
      (ground arith)

median_robust_example :
    (m : Price) × (median (9000 ∷ 104 ∷ 1 ∷ 100 ∷ 102 ∷ []) ≡ some m) × (100 ≤ m) × (m ≤ 104)
median_robust_example =
    median_robust 100 104 (9000 ∷ 104 ∷ 1 ∷ 100 ∷ 102 ∷ []) (ground arith) (ground arith)
      (ground arith)
