-- ===== src/Assets/Supply.antt =====
-- The total issuance of an asset is what the accounts hold: an invariant of every operation.
pub mod Exchange
use riochain.Prelude.{
  ℕ, min, ◌+◌, ◌-◌, ◌<◌, ◌≡◌, ◌⊎◌, Option, true, List, arith, contains, IsDistinct, sum_of,
}
use riochain.Prelude.Words.{wrapping_add, wrapping_sub, u128_mod}
use riochain.Prelude.Maps.{exists, get_or, update, update_at, sum_of-update, le-sum_of}
use riochain.Prelude.Outcome.{Leaves}
use riochain.Assets.Types.{AccountId, AssetId, Balance, AssetOptions, Assets}
use riochain.Assets.Module.{create_asset, make_transfer, mint_free, burn_free, reserve, unreserve}

-- What the listed accounts hold of an asset, free or reserved.
abbrev pub held : List AccountId → AssetId → Assets → Balance
held accounts a s = sum_of (s.free_balance a) accounts + sum_of (s.reserved_balance a) accounts

-- The listed accounts hold the whole issuance of the asset, which fits a `u128` and is zero until
-- the asset is created.
abbrev pub IsBacked : List AccountId → AssetId → Assets → Type 0
IsBacked accounts a s =
    (held accounts a s ≡ s.total_issuance a)
    × (s.total_issuance a < u128_mod)
    × ((exists (s.symbols a) ≡ true) ⊎ (s.total_issuance a ≡ 0))

module _ (accounts : List AccountId) (distinct : IsDistinct accounts) (b : AssetId) where
  pub make_transfer-IsBacked :
      (a : AssetId) (from to : AccountId) (amount : Balance) (s : Assets)
      → contains accounts from ≡ true
      → contains accounts to ≡ true
      → IsBacked accounts b s
      → Leaves (make_transfer a from to amount s) (IsBacked accounts b)
  unfolding make_transfer
  make_transfer-IsBacked a from to amount s hf ht h =
      let free = s.free_balance a in
      let less = wrapping_sub (free from) amount in
      let debited = update free from less in
      ground (
        arith,
        sum_of-update free from less accounts distinct hf,
        sum_of-update debited to (wrapping_add (debited to) amount) accounts distinct ht,
        le-sum_of debited to accounts ht,
        le-sum_of free from accounts hf,
      )

  pub mint_free-IsBacked :
      (a : AssetId) (who to : AccountId) (amount : Balance) (s : Assets)
      → contains accounts to ≡ true
      → IsBacked accounts b s
      → Leaves (mint_free a who to amount s) (IsBacked accounts b)
  unfolding mint_free
  mint_free-IsBacked a who to amount s ht h = ground (
    arith,
    sum_of-update (s.free_balance a) to (s.free_balance a to + amount) accounts distinct ht,
  )

  pub burn_free-IsBacked :
      (a : AssetId) (who to : AccountId) (amount : Balance) (s : Assets)
      → contains accounts to ≡ true
      → IsBacked accounts b s
      → Leaves (burn_free a who to amount s) (IsBacked accounts b)
  unfolding burn_free
  burn_free-IsBacked a who to amount s ht h = ground (
    arith,
    sum_of-update (s.free_balance a) to (s.free_balance a to - amount) accounts distinct ht,
  )

  pub reserve-IsBacked :
      (a : AssetId) (who : AccountId) (amount : Balance) (s : Assets)
      → contains accounts who ≡ true
      → IsBacked accounts b s
      → Leaves (reserve a who amount s) (IsBacked accounts b)
  unfolding reserve
  reserve-IsBacked a who amount s hw h =
      let free = s.free_balance a in
      let held_back = s.reserved_balance a in
      ground (
        arith,
        sum_of-update free who (free who - amount) accounts distinct hw,
        sum_of-update held_back who (wrapping_add (held_back who) amount) accounts distinct hw,
        le-sum_of free who accounts hw,
        le-sum_of held_back who accounts hw,
      )

  pub unreserve-IsBacked :
      (a : AssetId) (who : AccountId) (amount : Balance) (s : Assets)
      → contains accounts who ≡ true
      → IsBacked accounts b s
      → Leaves (unreserve a who amount s) (IsBacked accounts b)
  unfolding unreserve
  unreserve-IsBacked a who amount s hw h =
      let free = s.free_balance a in
      let held_back = s.reserved_balance a in
      let actual = min (held_back who) amount in
      ground (
        arith,
        sum_of-update free who (wrapping_add (free who) actual) accounts distinct hw,
        sum_of-update held_back who (held_back who - actual) accounts distinct hw,
        le-sum_of free who accounts hw,
        le-sum_of held_back who accounts hw,
      )

  pub create_asset-IsBacked :
      (a : AssetId) (symbol : List ℕ) (from_account : Option AccountId) (options : AssetOptions)
      (s : Assets)
      → contains accounts (get_or 0 from_account) ≡ true
      → options.initial_issuance < u128_mod
      → IsBacked accounts b s
      → Leaves (create_asset a symbol from_account options s) (IsBacked accounts b)
  unfolding create_asset
  create_asset-IsBacked a symbol from_account options s hw small h =
      let who = get_or 0 from_account in
      ground (
        arith,
        sum_of-update (s.free_balance a) who options.initial_issuance accounts distinct hw,
        le-sum_of (s.free_balance a) who accounts hw,
      )
