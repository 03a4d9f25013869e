-- ===== src/Assets/Genesis/Backing.antt =====
-- The genesis build of rio-assets/src/lib.rs leaves every asset backed.
use riochain.Prelude.{
  ◌<◌, ◌≡◌, refl, ◌∙◌, ap, true, false, List, [], ◌∷◌, arith, ◌==◌, All, contains, IsDistinct,
  sum_of, Bool-cases, inl, inr, ==→≡,
}
use riochain.Prelude.Words.{u128_mod}
use riochain.Prelude.Maps.{update_at, exists}
use riochain.Prelude.Totals
use riochain.Prelude.Totals.{total}
use riochain.Prelude.Outcome.{Returns, Returns->>=}
use riochain.Assets.Types.{AccountId, AssetId, Balance, Assets}
use riochain.Assets.Supply.{IsBacked}
use riochain.Assets.Calls.{Chain, Trait}
use riochain.Assets.Genesis.{AssetConfig, build_asset, build}
use riochain.Assets.Genesis.Endowment.{given_other, sum_of-given, endowed_sum-total}
use riochain.Assets.Genesis.Built.{IsBuilt, build_asset-IsBuilt}

-- Nothing is stored of the asset.
abbrev pub IsFresh : AssetId → Assets → Type 0
IsFresh a s =
    (s.total_issuance a ≡ 0)
    × (exists (s.symbols a) ≡ false)
    × ((who : AccountId) → s.free_balance a who ≡ 0)
    × ((who : AccountId) → s.reserved_balance a who ≡ 0)

-- The endowed accounts are listed, no two are the same, and their total fits a `u128`.
abbrev pub IsEndowable : List AccountId → AssetConfig → Type 0
IsEndowable accounts config =
    Totals.IsDistinct config.endowed
    × All (λ e. contains accounts e.0 ≡ true) config.endowed
    × (total config.endowed < u128_mod)

sum_of_zero :
    (f : AccountId → Balance) (accounts : List AccountId)
    → ((who : AccountId) → f who ≡ 0)
    → sum_of f accounts ≡ 0
sum_of_zero f [] h = refl
sum_of_zero f (x ∷ xs) h = omega (arith, h x, sum_of_zero f xs h)

abbrev pub ids : List AssetConfig → List AssetId
ids [] = []
ids (config ∷ rest) = config.id ∷ ids rest

module _ (config : AssetConfig) (s s' : Assets) (built : IsBuilt config s s') where
  built_other :
      (b : AssetId)
      → (config.id == b) ≡ false
      → (s'.free_balance b ≡ s.free_balance b)
        × (s'.reserved_balance b ≡ s.reserved_balance b)
        × (s'.total_issuance b ≡ s.total_issuance b)
        × (s'.symbols b ≡ s.symbols b)
  built_other b ne = (
    ap (λ f. f b) built.free_is
        ∙ given_other config.id b config.endowed (update_at s.free_balance config.id 0 0) ne
        ∙ rw ne refl,
    ap (λ f. f b) built.reserved_is,
    ap (λ f. f b) built.issuance_is ∙ rw ne refl,
    ap (λ f. f b) built.symbols_is ∙ rw ne refl,
  )

  built-IsFresh : (b : AssetId) → (config.id == b) ≡ false → IsFresh b s → IsFresh b s'
  built-IsFresh b ne h =
      let (free, reserved, issuance, symbols) = built_other b ne in
      (
        issuance ∙ h.0,
        ap exists symbols ∙ h.1,
        λ who. ap (λ f. f who) free ∙ h.2 who,
        λ who. ap (λ f. f who) reserved ∙ h.3 who,
      )

  built-IsBacked_same :
      (accounts : List AccountId)
      → IsDistinct accounts
      → IsEndowable accounts config
      → IsFresh config.id s
      → IsBacked accounts config.id s'
  built-IsBacked_same accounts distinct endowable fresh =
      let id = config.id in
      let start = update_at s.free_balance id 0 0 in
      let none_left : (who : AccountId) → start id who ≡ 0 = λ who. ground (arith, fresh.2 who) in
      let free : sum_of (s'.free_balance id) accounts ≡ total config.endowed =
        ap (λ f. sum_of (f id) accounts) built.free_is
        ∙ sum_of-given accounts id config.endowed start distinct endowable.0 endowable.1
            (λ who found. none_left who)
        ∙ omega (arith, sum_of_zero (start id) accounts none_left) in
      let reserved : sum_of (s'.reserved_balance id) accounts ≡ 0 =
        ap (λ f. sum_of (f id) accounts) built.reserved_is
        ∙ sum_of_zero (s.reserved_balance id) accounts fresh.3 in
      let issuance : s'.total_issuance id ≡ total config.endowed =
        ap (λ f. f id) built.issuance_is
        ∙ ground (arith, endowed_sum-total 0 config.endowed (omega (arith, endowable.2))) in
      let known : exists (s'.symbols id) ≡ true =
        ap (λ f. exists (f id)) built.symbols_is ∙ ground arith in
      (omega (arith, free, reserved, issuance), omega (arith, issuance, endowable.2), inl known)

  built-IsBacked :
      (accounts : List AccountId) (b : AssetId)
      → IsDistinct accounts
      → IsEndowable accounts config
      → IsFresh config.id s
      → IsBacked accounts b s
      → IsBacked accounts b s'
  built-IsBacked accounts b distinct endowable fresh h = elim (Bool-cases (config.id == b)) [
    | inl e ↦ rw (← ==→≡ config.id b e) (built-IsBacked_same accounts distinct endowable fresh)
    | inr ne ↦
        let (free, reserved, issuance, symbols) = built_other b ne in
        rw (free, reserved, issuance, symbols) h
  ]

module _ {X : Type 0} (t : Trait X) (root : AccountId) (accounts : List AccountId)
    (distinct : IsDistinct accounts) (b : AssetId) where
  -- The build never panics, and every asset that is backed before is backed after it. The configured ids are distinct and
  -- fresh, and each endowment is of distinct listed accounts, with a total that fits.
  pub build-IsBacked :
      (configs : List AssetConfig) (c : Chain X)
      → IsDistinct (ids configs)
      → All (IsEndowable accounts) configs
      → ((a : AssetId) → contains (ids configs) a ≡ true → IsFresh a c.assets)
      → IsBacked accounts b c.assets
      → Returns (build t root configs c) (λ _ c'. IsBacked accounts b c'.assets)
  unfolding build
  build-IsBacked [] c apart endowable fresh h = h
  build-IsBacked (config ∷ rest) c apart endowable fresh h =
      let own = fresh config.id (ground arith) in
      Returns->>= (λ _. build t root rest) (λ _ c'. IsBuilt config c.assets c'.assets)
        (λ _ c'. IsBacked accounts b c'.assets) (build_asset t root config) c
        (build_asset-IsBuilt t root config c own.1)
        λ _ c' built.
          build-IsBacked rest c' apart.1 endowable.1
            (λ a found.
              built-IsFresh config c.assets c'.assets built a
                (ground (arith, ==→≡ config.id a, apart.0, found))
                (fresh a (ground (arith, found))))
            (built-IsBacked config c.assets c'.assets built accounts b distinct endowable.0 own h)
