-- ===== src/Assets/Ledger/Effects.antt =====
-- Each operation on balances has its effect on the ledger, at every asset and account.
use riochain.Prelude.{ℕ, ◌≡◌, true, Option, List, arith, contains, IsDistinct}
use riochain.Prelude.Words.{wrapping_sub}
use riochain.Prelude.Maps.{get_or, update, sum_of-update, le-sum_of}
use riochain.Prelude.Outcome.{Outcome, Ends}
use riochain.Assets.Types.{AccountId, AssetId, Balance, AssetOptions, Assets}
use riochain.Assets.Module.{
  should_not_exist, create_asset, make_transfer, mint_free, burn_free, reserve, unreserve,
}
use riochain.Assets.Supply.{IsBacked}
use riochain.Assets.Ledger.{
  Ledger, ledger, Effect, nothing, moved, minted, burned, created, apply, IsPossible,
}

-- Two ledgers agree on an asset and an account.
abbrev pub AgreeAt : AssetId → AccountId → Ledger → Ledger → Type 0
AgreeAt b who l l' =
    (l.holding b who ≡ l'.holding b who) × (l.issuance b ≡ l'.issuance b) × (l.known b ≡ l'.known b)

-- A call that returns has had the effect, which was possible; one that fails had none.
abbrev pub Does : {A : Type 0} → AssetId → AccountId → Effect → Assets → Outcome Assets A → Type 0
Does b who e s o =
    Ends o (λ _ s'. IsPossible e (ledger s) × AgreeAt b who (ledger s') (apply e (ledger s)))
      (λ s'. AgreeAt b who (ledger s') (ledger s))

module _ (accounts : List AccountId) (distinct : IsDistinct accounts) (b : AssetId)
    (x : AccountId) where
  pub make_transfer_at :
      (a : AssetId) (from to : AccountId) (n : Balance) (s : Assets)
      → contains accounts from ≡ true
      → contains accounts to ≡ true
      → IsBacked accounts a s
      → Does b x (moved a from to n) s (make_transfer a from to n s)
  unfolding make_transfer
  make_transfer_at a from to n s hf ht h =
      let free = s.free_balance a in
      let less = wrapping_sub (free from) n in
      let debited = update free from less in
      ground (
        arith,
        sum_of-update free from less accounts distinct hf,
        le-sum_of debited to accounts ht,
        le-sum_of free from accounts hf,
      )

  pub mint_free_at :
      (a : AssetId) (root to : AccountId) (n : Balance) (s : Assets)
      → contains accounts to ≡ true
      → IsBacked accounts a s
      → Does b x (minted a to n) s (mint_free a root to n s)
  unfolding mint_free
  mint_free_at a root to n s ht h = ground arith

  pub burn_free_at :
      (a : AssetId) (root who : AccountId) (n : Balance) (s : Assets)
      → Does b x (burned a who n) s (burn_free a root who n s)
  unfolding burn_free
  burn_free_at a root who n s = ground arith

  pub reserve_at :
      (a : AssetId) (who : AccountId) (n : Balance) (s : Assets)
      → contains accounts who ≡ true
      → IsBacked accounts a s
      → Does b x nothing s (reserve a who n s)
  unfolding reserve
  reserve_at a who n s hw h = ground (
    arith,
    le-sum_of (s.free_balance a) who accounts hw,
    le-sum_of (s.reserved_balance a) who accounts hw,
  )

  pub unreserve_at :
      (a : AssetId) (who : AccountId) (n : Balance) (s : Assets)
      → contains accounts who ≡ true
      → IsBacked accounts a s
      → Does b x nothing s (unreserve a who n s)
  unfolding unreserve
  unreserve_at a who n s hw h = ground (
    arith,
    le-sum_of (s.free_balance a) who accounts hw,
    le-sum_of (s.reserved_balance a) who accounts hw,
  )

  pub create_asset_at :
      (a : AssetId) (symbol : List ℕ) (from_account : Option AccountId) (options : AssetOptions)
      (s : Assets)
      → contains accounts (get_or 0 from_account) ≡ true
      → IsBacked accounts a s
      → Does b x
          (created a (get_or 0 from_account) options.initial_issuance)
          s
          (create_asset a symbol from_account options s)
  unfolding create_asset should_not_exist
  create_asset_at a symbol from_account options s hw h = ground (
    arith,
    le-sum_of (s.free_balance a) (get_or 0 from_account) accounts hw,
    le-sum_of (s.reserved_balance a) (get_or 0 from_account) accounts hw,
  )
