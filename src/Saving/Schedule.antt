-- ===== src/Saving/Schedule.antt =====
-- A pack pays out what was locked in it, term by term, and no more.
use native.Mathlib.Nat.{
  lt-div-mul-add, div-mul-le_self, le-div_iff_mul-le, div-one, mul-one, mul_comm,
}
use riochain.Prelude.{
  ℕ, zero, suc, ◌+◌, ◌-◌, ◌*◌, ◌/◌, ◌≤◌, ◌<◌, ◌≡◌, refl, ◌∙◌, true, false, Option, none, some,
  arith, Option-cases, inl, inr, ◌⊎◌, ◌==◌, if◌then◌else◌,
}
use riochain.Prelude.Words.{u128_mod, wrapping_add, wrapping_sub, wrapping_mul}
use riochain.Assets.Types.{AccountId, AssetId, Balance}
use riochain.Saving.Types.{PhaseId, ReleaseTrigger, SharePackage, ShareReleasePack}
use riochain.Saving.Packs.{
  package_total, minor_terms, get_total_balance, release, create_share_release_pack,
}

-- What a package still pays, without the wrapping of a balance.
abbrev pub due : SharePackage → Balance
due p = p.terms_left * p.per_term

abbrev pub minor_due : Option SharePackage → Balance
minor_due none = 0
minor_due (some m) = due m

abbrev pub worth : ShareReleasePack → Balance
worth p = due p.major + minor_due p.minor

abbrev pub terms_of : ShareReleasePack → ℕ
terms_of p = p.major.terms_left + minor_terms p.minor

-- A pack is marked empty exactly when no term is left.
abbrev pub IsMarked : ShareReleasePack → Type 0
IsMarked p = p.empty ≡ (terms_of p == 0)

-- What `n` releases pay in all, and the pack after them.
abbrev pub paid : Option Balance → Balance
paid none = 0
paid (some a) = a

pub release_all : ℕ → ShareReleasePack → Balance × ShareReleasePack
release_all zero p = (0, p)
release_all (suc n) p =
    let released = release p in
    let rest = release_all n released.1 in (paid released.0 + rest.0, rest.1)

-- A product with one term less.
mul_pred : (n x : ℕ) → (n ≡ 0) ⊎ (n * x ≡ x + (n - 1) * x)
mul_pred zero x = inl refl
mul_pred (suc n) x = inr (grind arith)

-- One release takes one term, if one is left, and pays what it takes from the worth.
pub release_step :
    (p : ShareReleasePack)
    → IsMarked p
    → (paid (release p).0 + worth (release p).1 ≡ worth p)
      × (terms_of (release p).1 ≡ terms_of p - 1)
      × IsMarked (release p).1
unfolding release
release_step p m = elim (Option-cases p.minor) [
  | inl e ↦ ground (arith, mul_pred p.major.terms_left p.major.per_term)
  | inr (v, e) ↦
      ground (arith, mul_pred p.major.terms_left p.major.per_term, mul_pred v.terms_left v.per_term)
]

release_all_lem :
    (n : ℕ) (p : ShareReleasePack)
    → IsMarked p
    → ((release_all n p).0 + worth (release_all n p).1 ≡ worth p)
      × (terms_of (release_all n p).1 ≡ terms_of p - n)
      × IsMarked (release_all n p).1
unfolding release_all
release_all_lem zero p m = (omega arith, omega arith, m)
release_all_lem (suc n) p m =
    let s = release_step p m in
    let rest = release_all_lem n (release p).1 s.2 in (omega arith, omega arith, rest.2)

-- The portion is rounded up, to a full term at the most.
pub portion_bounds :
    (b c : ℕ)
    → 0 < c
    → (c - 1) * c ≤ b
    → let q = (b + (c - 1)) / c in (q * c ≤ b + (c - 1)) × (b ≤ q * c) × (c ≤ q + 1)
portion_bounds b c pos fills =
    let q = (b + (c - 1)) / c in
    let most : q * c ≤ b + (c - 1) = div-mul-le_self (b + (c - 1)) c in
    let least : b + (c - 1) < q * c + c = lt-div-mul-add pos in
    let full : c - 1 ≤ q = (le-div_iff_mul-le pos).1 (omega arith) in
    (most, omega arith, omega arith)

-- The terms of a pack with a portion `q`.
abbrev pub pack_of : AccountId → AssetId → PhaseId → Balance → ℕ → Balance → ShareReleasePack
pack_of owner asset_id phase_id balance count q = record {
  asset_id = asset_id;
  owner = owner;
  phase_id = phase_id;
  empty = false;
  major = record {
    terms_total = count;
    terms_left = if balance == q * count then count else count - 1;
    per_term = q;
  };
  minor =
      if balance == q * count
      then none
      else some (record { terms_total = 1; terms_left = 1; per_term = q - (q * count - balance) });
  release_trigger = ReleaseTrigger.phase_change;
}

pub create_share_release_pack_lem :
    (owner : AccountId) (asset_id : AssetId) (phase_id : PhaseId) (balance : Balance) (count : ℕ)
    → 0 < count
    → (count - 1) * count ≤ balance
    → balance + count ≤ u128_mod
    → create_share_release_pack owner asset_id phase_id balance count
      ≡ some (pack_of owner asset_id phase_id balance count ((balance + (count - 1)) / count))
unfolding create_share_release_pack wrapping_add wrapping_sub wrapping_mul
create_share_release_pack_lem owner asset_id phase_id balance count pos fills room =
    let small : balance + (count - 1) < u128_mod = omega arith in
    ground (arith, portion_bounds balance count pos fills, div-one balance, mul-one balance)

pub pack_of_lem :
    (owner : AccountId) (asset_id : AssetId) (phase_id : PhaseId) (balance : Balance) (count q : ℕ)
    → 0 < count
    → balance ≤ q * count
    → q * count ≤ balance + (count - 1)
    → count ≤ q + 1
    → let p = pack_of owner asset_id phase_id balance count q in
      (worth p ≡ balance) × (terms_of p ≡ count) × IsMarked p
pack_of_lem owner asset_id phase_id balance count q pos least most full =
    ground (arith, mul_pred count q, mul_comm count q)

-- A pack with no term left is worth nothing.
pub worth_spent : (p : ShareReleasePack) → terms_of p ≡ 0 → worth p ≡ 0
worth_spent p h = elim (Option-cases p.minor) [ inl e ↦ ground arith | inr (v, e) ↦ ground arith ]

-- The total balance of a pack is its worth, where that is a balance.
pub get_total_balance_exact :
    (p : ShareReleasePack) → IsMarked p → worth p < u128_mod → get_total_balance p ≡ worth p
unfolding get_total_balance package_total wrapping_add wrapping_mul
get_total_balance_exact p m small = elim (Option-cases p.minor) [
  | inl e ↦ ground (arith, worth_spent p)
  | inr (v, e) ↦ ground (arith, worth_spent p)
]

-- A pack pays out exactly what it was made for, in as many terms, and is empty after the last one, if
-- the balance fills its terms, that is, reaches `count * (count - 1)`, and leaves room for rounding up.
-- Before the first of its terms, of which there is one at least, its total balance is that too.
pub pack_pays_out :
    (owner : AccountId) (asset_id : AssetId) (phase_id : PhaseId) (balance : Balance) (count : ℕ)
    → 0 < count
    → (count - 1) * count ≤ balance
    → balance + count ≤ u128_mod
    → (p : ShareReleasePack) × (create_share_release_pack owner asset_id phase_id balance count
        ≡ some p)
      × (get_total_balance p ≡ balance)
      × ((release_all count p).0 ≡ balance)
      × ((release_all count p).1.empty ≡ true)
pack_pays_out owner asset_id phase_id balance count pos fills room =
    let q = (balance + (count - 1)) / count in
    let p = pack_of owner asset_id phase_id balance count q in
    let b = portion_bounds balance count pos fills in
    let w = pack_of_lem owner asset_id phase_id balance count q pos b.1 b.0 b.2 in
    let r = release_all_lem count p w.2 in
    (
      p,
      create_share_release_pack_lem owner asset_id phase_id balance count pos fills room,
      get_total_balance_exact p w.2 (omega arith) ∙ w.0,
      ground (arith, worth_spent (release_all count p).1),
      ground arith,
    )
