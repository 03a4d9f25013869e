-- ===== src/Price.antt =====
-- The pallet `rio-price` (modules/rio-price/src/lib.rs): reporters' prices and their median. A
-- price is a `u128`. `W` is the storage of the oracle pallet and of what listens to changes.
pub mod Median
pub mod Reports
pub mod Ending
mod Tests
use riochain.Prelude.{
  ℕ, zero, suc, ◌+◌, ◌-◌, ◌/◌, ◌%◌, Bool, true, false, Option, none, some, List, [], ◌∷◌, ◌++◌, map,
  length, leb, ltb, not, ◌==◌, if◌then◌else◌,
}
use riochain.Prelude.Words.{wrapping_add}
use riochain.Prelude.Outcome.{ok, Action, pure, fail, gets, modify, expect, ◌>>=◌, ◌>>◌}
use riochain.Assets.Types.{AccountId}
use riochain.Oracle.{OracleMixedIn}

abbrev pub Price : Type 0
Price = ℕ

abbrev pub price_precision : ℕ
price_precision = 10000

pub record PriceReport : Type 0 where
  pub reporter : AccountId
  pub price : Price

pub data Event : Type 0 where
  price_reported : AccountId → Price → Event
  price_changed : Price → Event

pub record Prices (W : Type 0) : Type 0 where
  pub current_price : Price
  pub price_reports : List PriceReport
  pub events : List Event
  pub world : W

-- `numbers.sort()`
abbrev pub insert_sorted : ℕ → List ℕ → List ℕ
insert_sorted x [] = x ∷ []
insert_sorted x (y ∷ ys) = if leb x y then x ∷ y ∷ ys else y ∷ insert_sorted x ys

abbrev pub sort : List ℕ → List ℕ
sort [] = []
sort (x ∷ xs) = insert_sorted x (sort xs)

-- `numbers[i]`, which panics past the end
abbrev pub get_elem? : List ℕ → ℕ → Option ℕ
get_elem? [] i = none
get_elem? (x ∷ xs) zero = some x
get_elem? (x ∷ xs) (suc i) = get_elem? xs i

-- `iter().sum()`
abbrev pub wrapping_sum : Price → List Price → Price
wrapping_sum sum [] = sum
wrapping_sum sum (x ∷ xs) = wrapping_sum (wrapping_add sum x) xs

-- It divides by the length, so it panics on no number.
unfoldable pub mean : List Price → Option Price
unfolding wrapping_add
mean numbers = if length numbers == 0 then none else some (wrapping_sum 0 numbers / length numbers)

abbrev both : Option ℕ → Option ℕ → Option Price
both (some a) (some b) = mean (a ∷ b ∷ [])
both _ _ = none

-- `none` is a panic.
unfoldable pub median : List Price → Option Price
unfolding mean
median numbers =
    let sorted = sort numbers in
    let mid = length sorted / 2 in
    if length sorted == 1
    then get_elem? sorted 0
    else if length sorted % 2 == 0
    then both (get_elem? sorted (mid - 1)) (get_elem? sorted mid)
    else get_elem? sorted mid

-- The closure of `add_price` over the reports, and whether it found the reporter.
unfoldable pub replace_price : AccountId → Price → List PriceReport → List PriceReport × Bool
replace_price who price [] = ([], false)
replace_price who price (x ∷ xs) =
    let (rest, found) = replace_price who price xs in
    if x.reporter == who then (record x { price = price } ∷ rest, true) else (x ∷ rest, found)

unfoldable pub next_reports : AccountId → Price → List PriceReport → List PriceReport
unfolding replace_price
next_reports who price reports =
    let (replaced, found) = replace_price who price reports in
    if found then replaced else replaced ++ record { reporter = who; price = price } ∷ []

unfoldable pub keep_valid : (AccountId → Bool) → List PriceReport → List PriceReport
keep_valid valid [] = []
keep_valid valid (x ∷ xs) =
    let rest = keep_valid valid xs in if valid x.reporter then x ∷ rest else rest

abbrev pub prices_of : List PriceReport → List Price
prices_of [] = []
prices_of (x ∷ xs) = x.price ∷ prices_of xs

module _ {W : Type 0} (oracle : OracleMixedIn W) (on_change : Price → W → W) where
  unfoldable pub add_price : AccountId → Price → Action (Prices W) Unit
  unfolding next_reports
  add_price who price = do
    modify (λ s. record s { price_reports = next_reports who price s.price_reports })
    modify (λ s. record s { world = oracle.on_witnessed who s.world })
    modify (λ s. record s { events = price_reported who price ∷ s.events })

  -- The origin is what `ReportOrigin::ensure_origin` answers: a member, or an error.
  unfoldable pub report : Option AccountId → Price → Action (Prices W) Unit
  unfolding add_price
  report none price = fail "bad origin"
  report (some who) price = add_price who price

  unfoldable pub update_price : Price → Action (Prices W) Unit
  update_price median_price s =
      if s.current_price == median_price
      then ok tt s
      else ok tt (record s {
        current_price = median_price;
        world = on_change median_price s.world;
        events = price_changed median_price ∷ s.events;
      })

  unfoldable pub on_finalize : Action (Prices W) Unit
  unfolding update_price
  on_finalize = do
    prices ← gets (λ s. prices_of s.price_reports)
    if length prices == 0
        then pure tt
        else do median_price ← expect (median prices); update_price median_price
    modify (λ s. record s {
      price_reports = keep_valid (λ a. oracle.is_valid a s.world) s.price_reports;
    })
