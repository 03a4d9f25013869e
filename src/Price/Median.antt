-- ===== src/Price/Median.antt =====
-- The median of the reported prices: it exists, and a minority of reporters cannot move it out of
-- the range of the others.
use riochain.Prelude.{
  ℕ, zero, suc, ◌+◌, ◌-◌, ◌*◌, ◌/◌, ◌%◌, ◌^◌, ◌≤◌, ◌<◌, ◌≡◌, some, List, [], ◌∷◌, arith, length,
  All, ltb, if◌then◌else◌, inl, inr, Bool-cases, ◌==◌,
}
use riochain.Price.{wrapping_sum, insert_sorted, sort, get_elem?, median}

-- How many prices lie below, and how many above.
abbrev pub below : ℕ → List ℕ → ℕ
below lo [] = 0
below lo (x ∷ xs) = (if ltb x lo then 1 else 0) + below lo xs

abbrev pub above : ℕ → List ℕ → ℕ
above hi [] = 0
above hi (x ∷ xs) = (if ltb hi x then 1 else 0) + above hi xs

abbrev IsSorted : List ℕ → Type 0
IsSorted [] = Unit
IsSorted (x ∷ xs) = All (λ y. x ≤ y) xs × IsSorted xs

All-insert_sorted :
    (a x : ℕ) (xs : List ℕ) → a ≤ x → All (λ y. a ≤ y) xs → All (λ y. a ≤ y) (insert_sorted x xs)
All-insert_sorted a x [] h all = (h, tt)
All-insert_sorted a x (y ∷ ys) h all = ground (arith, All-insert_sorted a x ys h all.1)

All-le_trans : (a x : ℕ) (xs : List ℕ) → a ≤ x → All (λ y. x ≤ y) xs → All (λ y. a ≤ y) xs
All-le_trans a x [] h all = tt
All-le_trans a x (y ∷ ys) h all = (omega arith, All-le_trans a x ys h all.1)

insert_sorted-IsSorted : (x : ℕ) (xs : List ℕ) → IsSorted xs → IsSorted (insert_sorted x xs)
insert_sorted-IsSorted x [] s = (tt, tt)
insert_sorted-IsSorted x (y ∷ ys) s =
    ground (arith, insert_sorted-IsSorted x ys s.1, All-insert_sorted y x ys, All-le_trans x y ys)

sort-IsSorted : (xs : List ℕ) → IsSorted (sort xs)
sort-IsSorted [] = tt
sort-IsSorted (x ∷ xs) = insert_sorted-IsSorted x (sort xs) (sort-IsSorted xs)

-- Sorting keeps the length and the counts.
insert_sorted_counts :
    (lo hi x : ℕ) (xs : List ℕ)
    → (length (insert_sorted x xs) ≡ suc (length xs))
      × (below lo (insert_sorted x xs) ≡ below lo (x ∷ xs))
      × (above hi (insert_sorted x xs) ≡ above hi (x ∷ xs))
insert_sorted_counts lo hi x [] = ground arith
insert_sorted_counts lo hi x (y ∷ ys) = ground (arith, insert_sorted_counts lo hi x ys)

sort_counts :
    (lo hi : ℕ) (xs : List ℕ)
    → (length (sort xs) ≡ length xs)
      × (below lo (sort xs) ≡ below lo xs)
      × (above hi (sort xs) ≡ above hi xs)
sort_counts lo hi [] = ground arith
sort_counts lo hi (x ∷ xs) =
    ground (arith, sort_counts lo hi xs, insert_sorted_counts lo hi x (sort xs))

get_elem?_total : (xs : List ℕ) (i : ℕ) → i < length xs → (v : ℕ) × (get_elem? xs i ≡ some v)
get_elem?_total [] i h = elim h [ ]
get_elem?_total (x ∷ xs) zero h = (x, ground arith)
get_elem?_total (x ∷ xs) (suc i) h = get_elem?_total xs i (omega arith)

get_elem?_ge-All :
    (lo : ℕ) (xs : List ℕ) (i v : ℕ) → All (λ y. lo ≤ y) xs → get_elem? xs i ≡ some v → lo ≤ v
get_elem?_ge-All lo [] i v all e = cc
get_elem?_ge-All lo (x ∷ xs) zero v all e = ground arith
get_elem?_ge-All lo (x ∷ xs) (suc i) v all e = get_elem?_ge-All lo xs i v all.1 e

above-All : (hi : ℕ) (xs : List ℕ) → All (λ y. hi < y) xs → above hi xs ≡ length xs
above-All hi [] all = ground arith
above-All hi (x ∷ xs) all = ground (arith, above-All hi xs all.1)

-- In a sorted list what stands at `i` is at least `lo` if at most `i` elements are below it.
get_elem?_ge :
    (lo : ℕ) (xs : List ℕ) (i v : ℕ)
    → IsSorted xs
    → below lo xs ≤ i
    → get_elem? xs i ≡ some v
    → lo ≤ v
get_elem?_ge lo [] i v s h e = cc
get_elem?_ge lo (x ∷ xs) zero v s h e = ground arith
get_elem?_ge lo (x ∷ xs) (suc i) v s h e =
    ground (arith, get_elem?_ge lo xs i v s.1, get_elem?_ge-All x xs i v s.0)

get_elem?_le :
    (hi : ℕ) (xs : List ℕ) (i v : ℕ)
    → IsSorted xs
    → above hi xs + i < length xs
    → get_elem? xs i ≡ some v
    → v ≤ hi
get_elem?_le hi [] i v s h e = cc
get_elem?_le hi (x ∷ xs) zero v s h e = ground (arith, above-All hi xs, All-le_trans (suc hi) x xs)
get_elem?_le hi (x ∷ xs) (suc i) v s h e = ground (arith, get_elem?_le hi xs i v s.1)

-- The middle of a sorted list.
middle_in_range :
    (lo hi : ℕ) (xs : List ℕ) (i : ℕ)
    → below lo xs ≤ i
    → above hi xs + i < length xs
    → (v : ℕ) × (get_elem? (sort xs) i ≡ some v) × (lo ≤ v) × (v ≤ hi)
middle_in_range lo hi xs i few_below few_above =
    let counts = sort_counts lo hi xs in
    let (v, e) = get_elem?_total (sort xs) i (omega arith) in
    (
      v,
      e,
      get_elem?_ge lo (sort xs) i v (sort-IsSorted xs) (omega arith) e,
      get_elem?_le hi (sort xs) i v (sort-IsSorted xs) (omega arith) e,
    )

median_even :
    (xs : List ℕ) (u v : ℕ)
    → length (sort xs) % 2 ≡ 0
    → get_elem? (sort xs) (length (sort xs) / 2 - 1) ≡ some u
    → get_elem? (sort xs) (length (sort xs) / 2) ≡ some v
    → u + v < 2 ^ 128
    → median xs ≡ some ((u + v) / 2)
unfolding median
median_even xs u v even eu ev small = ground arith

median_pair :
    (xs : List ℕ) (u v : ℕ)
    → length (sort xs) % 2 ≡ 0
    → get_elem? (sort xs) (length (sort xs) / 2 - 1) ≡ some u
    → get_elem? (sort xs) (length (sort xs) / 2) ≡ some v
    → median xs ≡ some (wrapping_sum 0 (u ∷ v ∷ []) / 2)
unfolding median
median_pair xs u v even eu ev = ground arith

median_odd :
    (xs : List ℕ) (v : ℕ)
    → length (sort xs) % 2 ≡ 1
    → get_elem? (sort xs) (length (sort xs) / 2) ≡ some v
    → median xs ≡ some v
unfolding median
median_odd xs v odd ev = elim (Bool-cases (length (sort xs) == 1)) [
  | inl one ↦
      let first : length (sort xs) / 2 ≡ 0 = ground arith in
      let e : get_elem? (sort xs) 0 ≡ some v = rw first at ev in ground arith
  | inr more ↦ ground arith
]

-- If fewer than half of the prices lie below `lo`, and fewer than half above `hi`, the median exists
-- and lies between them, whatever the other prices are. The bound keeps the sum of the two middle
-- prices below 2 ^ 128.
pub median_robust :
    (lo hi : ℕ) (xs : List ℕ)
    → 2 * below lo xs < length xs
    → 2 * above hi xs < length xs
    → hi < 2 ^ 127
    → (m : ℕ) × (median xs ≡ some m) × (lo ≤ m) × (m ≤ hi)
median_robust lo hi xs few_below few_above small =
    let counts = sort_counts lo hi xs in
    let mid = length (sort xs) / 2 in
    elim (Bool-cases (length (sort xs) % 2 == 0)) [
      | inl even ↦
          let (u, eu, lu, hu) = middle_in_range lo hi xs (mid - 1) (ground arith) (ground arith) in
          let (v, ev, lv, hv) = middle_in_range lo hi xs mid (ground arith) (ground arith) in
          (
            (u + v) / 2,
            median_even xs u v (ground arith) eu ev (omega arith),
            omega arith,
            omega arith,
          )
      | inr odd ↦
          let (v, ev, lv, hv) = middle_in_range lo hi xs mid (ground arith) (ground arith) in
          (v, median_odd xs v (ground arith) ev, lv, hv)
    ]

-- A list of prices that is not empty has a median.
pub median_total : (xs : List ℕ) → 0 < length xs → (m : ℕ) × (median xs ≡ some m)
median_total xs some_price =
    let counts = sort_counts 0 0 xs in
    let mid = length (sort xs) / 2 in
    let (v, ev) = get_elem?_total (sort xs) mid (ground arith) in
    elim (Bool-cases (length (sort xs) % 2 == 0)) [
      | inl even ↦
          let (u, eu) = get_elem?_total (sort xs) (mid - 1) (ground arith) in
          (wrapping_sum 0 (u ∷ v ∷ []) / 2, median_pair xs u v (ground arith) eu ev)
      | inr odd ↦ (v, median_odd xs v (ground arith) ev)
    ]
