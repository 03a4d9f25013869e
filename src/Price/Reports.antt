-- ===== src/Price/Reports.antt =====
-- One report for each reporter, and what the end of a block does with the reports.
use riochain.Prelude.{
  ◌*◌, ◌^◌, ◌≤◌, ◌<◌, ◌≡◌, refl, Bool, false, Option, none, some, List, [], ◌∷◌, ◌++◌, arith,
  length, IsDistinct, contains, ◌==◌, ◌||◌, ◌&&◌, if◌then◌else◌, Bool-cases, ==→≡, inl, inr,
}
use riochain.Prelude.Outcome.{ok, Returns}
use riochain.Assets.Types.{AccountId}
use riochain.Oracle.{OracleMixedIn}
use riochain.Price.{
  Price, PriceReport, Prices, prices_of, replace_price, next_reports, keep_valid, median, report,
  on_finalize, price_changed,
}
use riochain.Price.Median.{below, above, median_robust}

abbrev pub reporters : List PriceReport → List AccountId
reporters [] = []
reporters (x ∷ xs) = x.reporter ∷ reporters xs

-- The price that a reporter stands by.
abbrev pub price_by : AccountId → List PriceReport → Option Price
price_by who [] = none
price_by who (x ∷ xs) = if x.reporter == who then some x.price else price_by who xs

replace_price_found :
    (who : AccountId) (price : Price) (xs : List PriceReport)
    → ((replace_price who price xs).1 ≡ contains (reporters xs) who)
      × (reporters (replace_price who price xs).0 ≡ reporters xs)
unfolding replace_price
replace_price_found who price [] = (refl, refl)
replace_price_found who price (x ∷ xs) = ground (arith, replace_price_found who price xs)

price_by-replace_price :
    (who other : AccountId) (price : Price) (xs : List PriceReport)
    → price_by other (replace_price who price xs).0
      ≡ (if contains (reporters xs) who && who == other then some price else price_by other xs)
unfolding replace_price
price_by-replace_price who other price [] = refl
price_by-replace_price who other price (x ∷ xs) =
    ground (arith, price_by-replace_price who other price xs)

price_by-append :
    (who other : AccountId) (price : Price) (xs : List PriceReport)
    → contains (reporters xs) who ≡ false
    → price_by other (xs ++ record { reporter = who; price = price } ∷ [])
      ≡ (if who == other then some price else price_by other xs)
price_by-append who other price [] new = refl
price_by-append who other price (x ∷ xs) new = ground (arith, price_by-append who other price xs)

contains-append :
    (a who : AccountId) (price : Price) (xs : List PriceReport)
    → contains (reporters (xs ++ record { reporter = who; price = price } ∷ [])) a
      ≡ (contains (reporters xs) a || who == a)
contains-append a who price [] = ground arith
contains-append a who price (x ∷ xs) = ground (arith, contains-append a who price xs)

append-IsDistinct :
    (who : AccountId) (price : Price) (xs : List PriceReport)
    → contains (reporters xs) who ≡ false
    → IsDistinct (reporters xs)
    → IsDistinct (reporters (xs ++ record { reporter = who; price = price } ∷ []))
append-IsDistinct who price [] new d = ground arith
append-IsDistinct who price (x ∷ xs) new d =
    ground (arith, append-IsDistinct who price xs, contains-append x.reporter who price xs)

price_by-next_reports :
    (who other : AccountId) (price : Price) (xs : List PriceReport)
    → price_by other (next_reports who price xs)
      ≡ (if who == other then some price else price_by other xs)
unfolding next_reports
price_by-next_reports who other price xs = ground (
  arith,
  replace_price_found who price xs,
  price_by-replace_price who other price xs,
  price_by-append who other price (replace_price who price xs).0,
)

next_reports-IsDistinct :
    (who : AccountId) (price : Price) (xs : List PriceReport)
    → IsDistinct (reporters xs)
    → IsDistinct (reporters (next_reports who price xs))
unfolding next_reports
next_reports-IsDistinct who price xs d = ground (
  arith,
  replace_price_found who price xs,
  append-IsDistinct who price (replace_price who price xs).0,
)

price_by-keep_valid :
    (valid : AccountId → Bool) (who : AccountId) (xs : List PriceReport)
    → price_by who (keep_valid valid xs) ≡ (if valid who then price_by who xs else none)
unfolding keep_valid
price_by-keep_valid valid who [] = ground arith
price_by-keep_valid valid who (x ∷ xs) = ground (arith, price_by-keep_valid valid who xs)

module _ {W : Type 0} (oracle : OracleMixedIn W) (on_change : Price → W → W) where
  -- A report of a member is recorded as that member's price, in place of an older one, and
  -- witnessed by the oracle. No other member's price changes, no price is current before the end
  -- of the block, and if no reporter was listed twice, then none is.
  report_records :
      (who : AccountId) (price : Price) (s : Prices W)
      → IsDistinct (reporters s.price_reports)
      → Returns (report oracle on_change (some who) price s) λ _ s'.
        ((other : AccountId)
          → price_by other s'.price_reports
            ≡ (if who == other then some price else price_by other s.price_reports))
        × IsDistinct (reporters s'.price_reports)
        × (s'.current_price ≡ s.current_price)
        × (s'.world ≡ oracle.on_witnessed who s.world)
  unfolding report
  report_records who price s d = (
    λ other. price_by-next_reports who other price s.price_reports,
    next_reports-IsDistinct who price s.price_reports d,
    refl,
    refl,
  )

  -- The state after a block whose reports have the median `m`.
  abbrev finalized : Price → Prices W → Prices W
  finalized m s =
      let world = if s.current_price == m then s.world else on_change m s.world in
      record s {
        current_price = m;
        world = world;
        events = if s.current_price == m then s.events else price_changed m ∷ s.events;
        price_reports = keep_valid (λ a. oracle.is_valid a world) s.price_reports;
      }

  on_finalize_lem :
      (m : Price) (s : Prices W)
      → 0 < length (prices_of s.price_reports)
      → median (prices_of s.price_reports) ≡ some m
      → on_finalize oracle on_change s ≡ ok tt (finalized m s)
  unfolding on_finalize
  on_finalize_lem m s some_reported e = elim (Bool-cases (s.current_price == m)) [
    | inl same ↦ ground (arith, ==→≡ s.current_price m)
    | inr changed ↦ ground arith
  ]

  -- The end of a block: if fewer than half of the reports lie below `lo`, and fewer than half above
  -- `hi`, and `hi` is below 2 ^ 127, so that the mean of two prices in the range does not wrap, then
  -- the current price is their median and lies in the range. A listener hears of it exactly
  -- if it differs from the old price. Then the reports of the reporters that the oracle does not
  -- hold valid are gone, and the others stay.
  pub on_finalize_robust :
      (lo hi : Price) (s : Prices W)
      → 2 * below lo (prices_of s.price_reports) < length (prices_of s.price_reports)
      → 2 * above hi (prices_of s.price_reports) < length (prices_of s.price_reports)
      → hi < 2 ^ 127
      → Returns (on_finalize oracle on_change s) λ _ s'.
        (median (prices_of s.price_reports) ≡ some s'.current_price)
        × (lo ≤ s'.current_price)
        × (s'.current_price ≤ hi)
        × (s'.world ≡ (
            if s.current_price == s'.current_price
            then s.world
            else on_change s'.current_price s.world))
        × ((who : AccountId)
            → price_by who s'.price_reports
              ≡ (if oracle.is_valid who s'.world then price_by who s.price_reports else none))
  on_finalize_robust lo hi s few_below few_above small =
      let (m, e, l, h) =
        median_robust lo hi (prices_of s.price_reports) few_below few_above small in
      rw (on_finalize_lem m s (omega arith) e)
        (e, l, h, refl, λ who. price_by-keep_valid _ who s.price_reports)
