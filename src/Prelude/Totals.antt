-- ===== src/Prelude/Totals.antt =====
-- The sum of the numbers in a linked map, whose keys are distinct.
use riochain.Prelude.{ℕ, ◌+◌, ◌≡◌, refl, false, none, some, [], ◌∷◌, arith, ◌==◌, Option-cases}
use riochain.Prelude.Maps.{get_or}
use riochain.Prelude.Linked.{LinkedMap, lookup, insert, replace, remove, lookup-remove}

abbrev pub total : LinkedMap ℕ → ℕ
total [] = 0
total ((_, v) ∷ rest) = v + total rest

abbrev pub IsDistinct : LinkedMap ℕ → Type 0
IsDistinct [] = Unit
IsDistinct ((k, _) ∷ rest) = (lookup k rest ≡ none) × IsDistinct rest

total-replace :
    (k v old : ℕ) (m : LinkedMap ℕ)
    → lookup k m ≡ some old
    → total (replace k v m) + old ≡ total m + v
total-replace k v old [] h = ground arith
total-replace k v old ((j, w) ∷ m) h = ground (arith, total-replace k v old m)

-- A new number under a key takes the place of the old one.
pub total-insert :
    (k v : ℕ) (m : LinkedMap ℕ) → total (insert k v m) + get_or 0 (lookup k m) ≡ total m + v
total-insert k v m =
    ground (arith, Option-cases (lookup k m), total-replace k v (get_or 0 (lookup k m)) m)

total-remove_none : (k : ℕ) (m : LinkedMap ℕ) → lookup k m ≡ none → total (remove k m) ≡ total m
total-remove_none k [] h = refl
total-remove_none k ((j, w) ∷ m) h = ground (arith, total-remove_none k m)

pub total-remove :
    (k : ℕ) (m : LinkedMap ℕ) → IsDistinct m → total (remove k m) + get_or 0 (lookup k m) ≡ total m
total-remove k [] d = refl
total-remove k ((j, w) ∷ m) d = ground (arith, total-remove k m, total-remove_none k m)

lookup-replace_other :
    (k j v : ℕ) (m : LinkedMap ℕ) → (k == j) ≡ false → lookup j (replace k v m) ≡ lookup j m
lookup-replace_other k j v [] ne = refl
lookup-replace_other k j v ((i, w) ∷ m) ne = ground (arith, lookup-replace_other k j v m)

replace-IsDistinct : (k v : ℕ) (m : LinkedMap ℕ) → IsDistinct m → IsDistinct (replace k v m)
replace-IsDistinct k v [] d = d
replace-IsDistinct k v ((j, w) ∷ m) d =
    ground (arith, replace-IsDistinct k v m, lookup-replace_other k j v m)

pub insert-IsDistinct : (k v : ℕ) (m : LinkedMap ℕ) → IsDistinct m → IsDistinct (insert k v m)
insert-IsDistinct k v m d = ground (arith, Option-cases (lookup k m), replace-IsDistinct k v m)

pub remove-IsDistinct : (k : ℕ) (m : LinkedMap ℕ) → IsDistinct m → IsDistinct (remove k m)
remove-IsDistinct k [] d = d
remove-IsDistinct k ((j, w) ∷ m) d =
    ground (arith, remove-IsDistinct k m, lookup-remove {V = ℕ} k j m)
