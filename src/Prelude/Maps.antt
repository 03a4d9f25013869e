-- ===== src/Prelude/Maps.antt =====
-- Storage maps. A `map` with a default is a function; a map whose code asks for `exists` returns
-- an `Option`; a `linked_map` that the code enumerates is an association list.
use riochain.Prelude.{
  ◌+◌, sum_of, contains, IsDistinct, ℕ, ◌≡◌, refl, ◌≤◌, Bool, true, false, Option, none, some, List,
  [], ◌∷◌, arith, ◌==◌, if◌then◌else◌,
}

module _ {ℓ} {V : Type ℓ} where
  abbrev pub update : (ℕ → V) → ℕ → V → ℕ → V
  update f k v j = if k == j then v else f j

  -- A `double_map`.
  abbrev pub update_at : (ℕ → ℕ → V) → ℕ → ℕ → V → ℕ → ℕ → V
  update_at f a k v b = if a == b then update (f a) k v else f b

sum_of-update_other :
    (f : ℕ → ℕ) (k v : ℕ) (xs : List ℕ)
    → contains xs k ≡ false
    → sum_of (update f k v) xs ≡ sum_of f xs
sum_of-update_other f k v [] m = refl
sum_of-update_other f k v (x ∷ xs) m = ground (arith, sum_of-update_other f k v xs)

-- What an update does to the sum over a list without repetition.
pub sum_of-update :
    (f : ℕ → ℕ) (k v : ℕ) (xs : List ℕ)
    → IsDistinct xs
    → contains xs k ≡ true
    → sum_of (update f k v) xs + f k ≡ sum_of f xs + v
sum_of-update f k v [] d m = cc
sum_of-update f k v (x ∷ xs) d m =
    ground (arith, sum_of-update f k v xs, sum_of-update_other f k v xs)

pub le-sum_of : (f : ℕ → ℕ) (k : ℕ) (xs : List ℕ) → contains xs k ≡ true → f k ≤ sum_of f xs
le-sum_of f k [] m = cc
le-sum_of f k (x ∷ xs) m = ground (arith, le-sum_of f k xs)

module _ {ℓ} {V : Type ℓ} where
  abbrev pub exists : Option V → Bool
  exists none = false
  exists (some _) = true

  abbrev pub get_or : V → Option V → V
  get_or d none = d
  get_or d (some v) = v
