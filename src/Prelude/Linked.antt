-- ===== src/Prelude/Linked.antt =====
-- A `linked_map` that the code enumerates: an association list. A new key goes in front, a known
-- one keeps its place.
use riochain.Prelude.{
  ℕ, ◌≡◌, refl, ◌≢◌, Option, none, some, List, [], ◌∷◌, arith, ◌==◌, if◌then◌else◌,
}

abbrev pub LinkedMap {ℓ} : Type ℓ → Type ℓ
LinkedMap V = List (ℕ × V)

module _ {ℓ} {V : Type ℓ} where
  abbrev pub lookup : ℕ → LinkedMap V → Option V
  lookup k [] = none
  lookup k ((j, v) ∷ m) = if j == k then some v else lookup k m

  abbrev pub replace : ℕ → V → LinkedMap V → LinkedMap V
  replace k v [] = []
  replace k v ((j, w) ∷ m) = if j == k then (k, v) ∷ m else (j, w) ∷ replace k v m

  abbrev pub insert : ℕ → V → LinkedMap V → LinkedMap V
  insert k v m = elim (lookup k m) [ none ↦ (k, v) ∷ m | some _ ↦ replace k v m ]

  abbrev pub remove : ℕ → LinkedMap V → LinkedMap V
  remove k [] = []
  remove k ((j, w) ∷ m) = let rest = remove k m in if j == k then rest else (j, w) ∷ rest

  lookup-replace :
      (k j : ℕ) (v : V) (m : LinkedMap V)
      → lookup k m ≢ none
      → lookup j (replace k v m) ≡ (if k == j then some v else lookup j m)
  lookup-replace k j v [] h = absurd (h refl)
  lookup-replace k j v ((i, w) ∷ m) h = ground (arith, lookup-replace k j v m)

  pub lookup-insert :
      (k j : ℕ) (v : V) (m : LinkedMap V)
      → lookup j (insert k v m) ≡ (if k == j then some v else lookup j m)
  lookup-insert k j v m = ground (arith, lookup-replace k j v m)

  pub lookup-remove :
      (k j : ℕ) (m : LinkedMap V) → lookup j (remove k m) ≡ (if k == j then none else lookup j m)
  lookup-remove k j [] = ground arith
  lookup-remove k j ((i, w) ∷ m) = ground (arith, lookup-remove k j m)
