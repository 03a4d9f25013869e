-- ===== src/ChainSpec/Loading.antt =====
-- `set_address_type` and `load_spec` of src/cli.rs. The state is the default version of addresses,
-- which the framework keeps.
use riochain.Prelude.{
  ℕ, ◌≡◌, refl, ◌∙◌, ◌⊎◌, inl, inr, true, false, Option, none, some, String, List,
}
use riochain.Prelude.Outcome.{
  Action, bind_ok, bind_err, ok, err, pure, fail, modify, expect, ◌>>=◌, ◌>>◌,
}
use riochain.ChainSpec.Alternative.{Alternative, unsupported, str_eq, get_alternative_from_id, from}
use riochain.ChainSpec.Genesis.{Keys}
use riochain.ChainSpec.Spec.{ChainSpec, load}
use riochain.ChainSpec.Ids.{id_of, Lists, get_alternative_from_id_cases, Lists-All}

-- What is not of this repository: the order of the hash map, the reading of a specification from a
-- file, with its error, and `Ss58AddressFormat::try_from`.
pub record Environment : Type 0 where
  pub order : List Alternative
  pub from_json_file : String → String ⊎ ChainSpec
  pub address_format : String → Option ℕ

-- `?` on a result
abbrev try : {S A : Type 0} → String ⊎ A → Action S A
try (inl e) = fail e
try (inr a) = pure a

module _ (env : Environment) (keys : Keys) where
  -- The `match` on `Alternative::from(chain_key)`.
  unfoldable pub alternative_of : String → Action ℕ Alternative
  alternative_of chain_key = elim (from chain_key) [
    | some spec ↦ pure spec
    | none ↦ do spec ← try (env.from_json_file chain_key); get_alternative_from_id env.order spec.id
  ]

  -- The `match` on the alternative, whose branches are the same.
  abbrev pub address_version : Alternative → Option ℕ
  address_version Alternative.beta = env.address_format "42"
  address_version _ = env.address_format "42"

  abbrev set_version : Alternative → Action ℕ Unit
  set_version alternative = do v ← expect (address_version alternative); modify (λ _. v)

  unfoldable pub set_address_type : String → Action ℕ Unit
  unfolding alternative_of
  set_address_type chain_key = do alternative ← alternative_of chain_key; set_version alternative

  abbrev found : String → Action ℕ (Option ChainSpec)
  found id = elim (from id) [ some spec ↦ pure (some (load keys spec)) | none ↦ pure none ]

  unfoldable pub load_spec : String → Action ℕ (Option ChainSpec)
  unfolding set_address_type
  load_spec id = do set_address_type id; found id

  address_version_lem :
      (v : ℕ) → env.address_format "42" ≡ some v → (a : Alternative) → address_version a ≡ some v
  address_version_lem v h Alternative.development = h
  address_version_lem v h Alternative.local_testnet = h
  address_version_lem v h Alternative.testnet = h
  address_version_lem v h Alternative.beta = h

  -- What `set_address_type` does once the alternative is known.
  set_address_type_lem :
      (key : String) (a : Alternative) (v s : ℕ)
      → alternative_of key s ≡ ok a s
      → env.address_format "42" ≡ some v
      → set_address_type key s ≡ ok tt v
  unfolding set_address_type
  set_address_type_lem key a v s known format =
      bind_ok set_version (alternative_of key) s a s known
      ∙ rw (address_version_lem v format a) refl

  set_address_type_err :
      (key e : String) (s : ℕ) → alternative_of key s ≡ err e s → set_address_type key s ≡ err e s
  unfolding set_address_type
  set_address_type_err key e s missed = bind_err set_version (alternative_of key) s e s missed

  alternative_of_file :
      (key : String) (spec : ChainSpec) (s : ℕ)
      → from key ≡ none
      → env.from_json_file key ≡ inr spec
      → alternative_of key s ≡ get_alternative_from_id env.order spec.id s
  unfolding alternative_of
  alternative_of_file key spec s unknown file = rw (unknown, file, alternative_of) refl

  alternative_of_known :
      (key : String) (a : Alternative) (s : ℕ) → from key ≡ some a → alternative_of key s ≡ ok a s
  unfolding alternative_of
  alternative_of_known key a s known = rw (known, alternative_of) refl

  -- A key of an alternative gives its specification; addresses get the version of the format 42.
  pub load_spec_known :
      (key : String) (a : Alternative) (v s : ℕ)
      → from key ≡ some a
      → env.address_format "42" ≡ some v
      → load_spec key s ≡ ok (some (load keys a)) v
  unfolding load_spec
  load_spec_known key a v s known format =
      bind_ok (λ _. found key) (set_address_type key) s tt v
        (set_address_type_lem key a v s (alternative_of_known key a s known) format)
      ∙ rw (known, found) refl

  -- A file that holds a specification is accepted, and left to the framework to load, exactly if its
  -- id is that of an alternative: addresses then get the version of the format 42. With any other id
  -- it is refused, and the version stays. The key is no alternative's, the map lists them all, and
  -- the framework knows the format.
  pub load_spec_file :
      (key : String) (spec : ChainSpec) (v s : ℕ)
      → from key ≡ none
      → env.from_json_file key ≡ inr spec
      → env.address_format "42" ≡ some v
      → ((a : Alternative) → Lists env.order a)
      → ((a : Alternative) × (str_eq (id_of a) spec.id ≡ true) × (load_spec key s ≡ ok none v))
        ⊎ (((a : Alternative) → str_eq (id_of a) spec.id ≡ false)
            × (load_spec key s ≡ err (unsupported spec.id) s))
  unfolding load_spec
  load_spec_file key spec v s unknown file format complete =
      elim (get_alternative_from_id_cases env.order spec.id s) [
        | inl (a, same, is) ↦ inl (
          a,
          same,
          bind_ok (λ _. found key) (set_address_type key) s tt v
                (set_address_type_lem key a v s (alternative_of_file key spec s unknown file ∙ is)
                  format)
              ∙ rw (unknown, found) refl,
        )
        | inr (differ, missed) ↦ inr (
          (λ a. Lists-All (λ k. str_eq (id_of k) spec.id ≡ false) env.order a differ (complete a)),
          bind_err (λ _. found key) (set_address_type key) s (unsupported spec.id) s
              (set_address_type_err key (unsupported spec.id) s
                (alternative_of_file key spec s unknown file ∙ missed)),
        )
      ]
