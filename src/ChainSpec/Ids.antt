-- ===== src/ChainSpec/Ids.antt =====
-- The ids of the alternatives of src/chain_spec.rs tell them apart.
use riochain.Prelude.{
  ◌≡◌, ◌≢◌, ◌⊎◌, inl, inr, refl, sym, ap, ◌∙◌, true, false, String, List, [], ◌∷◌, All, Bool-cases,
}
use riochain.Prelude.Outcome.{ok, err}
use riochain.ChainSpec.Alternative.{
  Alternative, str_eq, chain_type, unsupported, get_alternative_from_id,
}

abbrev pub id_of : Alternative → String
id_of a = (chain_type a).1

abbrev pub Lists : List Alternative → Alternative → Type 0
Lists [] a = ⊥
Lists (k ∷ rest) a = (k ≡ a) ⊎ Lists rest a

-- Two alternatives have the same id only if they are the same.
compared :
    (k a : Alternative)
    → ((str_eq (id_of k) (id_of a) ≡ true) × (k ≡ a)) ⊎ (str_eq (id_of k) (id_of a) ≡ false)
compared Alternative.development Alternative.development = inl (refl, refl)
compared Alternative.development Alternative.local_testnet = inr refl
compared Alternative.development Alternative.testnet = inr refl
compared Alternative.development Alternative.beta = inr refl
compared Alternative.local_testnet Alternative.development = inr refl
compared Alternative.local_testnet Alternative.local_testnet = inl (refl, refl)
compared Alternative.local_testnet Alternative.testnet = inr refl
compared Alternative.local_testnet Alternative.beta = inr refl
compared Alternative.testnet Alternative.development = inr refl
compared Alternative.testnet Alternative.local_testnet = inr refl
compared Alternative.testnet Alternative.testnet = inl (refl, refl)
compared Alternative.testnet Alternative.beta = inr refl
compared Alternative.beta Alternative.development = inr refl
compared Alternative.beta Alternative.local_testnet = inr refl
compared Alternative.beta Alternative.testnet = inr refl
compared Alternative.beta Alternative.beta = inl (refl, refl)

own_id : (a : Alternative) → str_eq (id_of a) (id_of a) ≡ true
own_id Alternative.development = refl
own_id Alternative.local_testnet = refl
own_id Alternative.testnet = refl
own_id Alternative.beta = refl

differs : (k a : Alternative) → str_eq (id_of k) (id_of a) ≡ false → k ≢ a
differs k a e same =
    let same_id = ap (λ x. str_eq (id_of x) (id_of a)) same in
    let both : true ≡ false = sym (own_id a) ∙ sym same_id ∙ e in cc

-- In whatever order the map is iterated, the id of an alternative leads back to it. The order lists
-- the alternative.
pub get_alternative_from_id-id_of :
    {S : Type 0} (order : List Alternative) (a : Alternative) (s : S)
    → Lists order a
    → get_alternative_from_id order (id_of a) s ≡ ok a s
unfolding get_alternative_from_id
get_alternative_from_id-id_of [] a s listed = absurd listed
get_alternative_from_id-id_of (k ∷ rest) a s listed = elim (compared k a) [
  | inl (e, same) ↦ rw e (ap (λ x. ok x s) same)
  | inr e ↦ rw e (
      get_alternative_from_id-id_of rest a s
        (elim listed [ inl same ↦ absurd (differs k a e same) | inr later ↦ later ]))
]

-- An id is that of an alternative, which is found, or of none of those listed.
pub get_alternative_from_id_cases :
    {S : Type 0} (order : List Alternative) (id : String) (s : S)
    → ((k : Alternative) × (str_eq (id_of k) id ≡ true)
        × (get_alternative_from_id order id s ≡ ok k s))
      ⊎ (All (λ k. str_eq (id_of k) id ≡ false) order
          × (get_alternative_from_id order id s ≡ err (unsupported id) s))
unfolding get_alternative_from_id
get_alternative_from_id_cases [] id s = inr (tt, refl)
get_alternative_from_id_cases (k ∷ rest) id s = elim (Bool-cases (str_eq (id_of k) id)) [
  | inl e ↦ inl (k, e, rw e refl)
  | inr e ↦ elim (get_alternative_from_id_cases rest id s) [
    | inl (a, same, found) ↦ inl (a, same, rw e found)
    | inr (differ, missed) ↦ inr ((e, differ), rw e missed)
  ]
]

pub Lists-All :
    (P : Alternative → Type 0) (order : List Alternative) (a : Alternative)
    → All P order
    → Lists order a
    → P a
Lists-All P [] a all listed = absurd listed
Lists-All P (k ∷ rest) a all (inl same) = rw (← same) all.0
Lists-All P (k ∷ rest) a all (inr later) = Lists-All P rest a all.1 later
