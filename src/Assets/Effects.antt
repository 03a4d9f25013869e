-- ===== src/Assets/Effects.antt =====
-- What the operations on balances do to the accounts, and which of them undo one another.
use riochain.Prelude.{◌+◌, ◌-◌, ◌<◌, ◌≤◌, ◌≡◌, ◌≢◌, ◌⊎◌, refl, true, false, arith, min}
use riochain.Prelude.Words.{u128_mod}
use riochain.Prelude.Maps.{exists, update_at}
use riochain.Prelude.Outcome.{ok, Returns, pure, ◌>>=◌, ◌>>◌}
use riochain.Assets.Types.{AccountId, AssetId, Balance, PermissionType, transferable, Assets}
use riochain.Assets.Module.{
  check_permission, make_transfer, mint_free, burn_free, reserve, unreserve,
}
use riochain.Assets.Imbalances.Positive
use riochain.Assets.Imbalances.Negative
use riochain.Assets.Currency
use riochain.Assets.Currency.{Provider}

-- The state after a transfer between two accounts.
abbrev pub transferred : AssetId → AccountId → AccountId → Balance → Assets → Assets
transferred a from to amount s =
    let debited = update_at s.free_balance a from (s.free_balance a from - amount) in
    record s { free_balance = update_at debited a to (s.free_balance a to + amount) }

pub make_transfer_lem :
    (a : AssetId) (from to : AccountId) (amount : Balance) (s : Assets)
    → exists (s.symbols a) ≡ true
    → s.restrictions a transferable ≡ false
    → from ≢ to
    → amount ≤ s.free_balance a from
    → s.free_balance a from < u128_mod
    → s.free_balance a to + amount < u128_mod
    → make_transfer a from to amount s ≡ ok tt (transferred a from to amount s)
unfolding make_transfer
make_transfer_lem a from to amount s known free ne funds small room = ground arith

module _ (a : AssetId) (s : Assets) where
  -- A transfer between two accounts succeeds if the asset exists and may be transferred, the
  -- sender has the funds and the receiver's balance has room. Then the amount has moved, any other
  -- balance, of this or another asset, is unchanged, and so are the issuances and the reserves.
  make_transfer_moves :
      (from to : AccountId) (amount : Balance) (b : AssetId) (who : AccountId)
      → exists (s.symbols a) ≡ true
      → s.restrictions a transferable ≡ false
      → from ≢ to
      → amount ≤ s.free_balance a from
      → s.free_balance a from < u128_mod
      → s.free_balance a to + amount < u128_mod
      → (b ≢ a) ⊎ ((who ≢ from) × (who ≢ to))
      → Returns (make_transfer a from to amount s) λ _ s'.
        (s'.free_balance a from + amount ≡ s.free_balance a from)
        × (s'.free_balance a to ≡ s.free_balance a to + amount)
        × (s'.free_balance b who ≡ s.free_balance b who)
        × (s'.total_issuance ≡ s.total_issuance)
        × (s'.reserved_balance ≡ s.reserved_balance)
  make_transfer_moves from to amount b who known free ne funds small room other =
      rw (make_transfer_lem a from to amount s known free ne funds small room)
        (ground arith, ground arith, ground arith, refl, refl)

  -- Burning what was just minted, by a root key with both permissions, gives every balance and
  -- issuance back.
  burn_free-mint_free :
      (root who : AccountId) (amount : Balance)
      → exists (s.symbols a) ≡ true
      → check_permission a root PermissionType.mint s ≡ true
      → check_permission a root PermissionType.burn s ≡ true
      → s.total_issuance a + amount < u128_mod
      → s.free_balance a who + amount < u128_mod
      → Returns ((mint_free a root who amount >> burn_free a root who amount) s) λ _ s'.
        ((b : AssetId) → s'.total_issuance b ≡ s.total_issuance b)
        × ((b : AssetId) (w : AccountId) → s'.free_balance b w ≡ s.free_balance b w)
  unfolding mint_free burn_free
  burn_free-mint_free root who amount known may_mint may_burn room_total room = ground arith

  -- Unreserving what was just reserved moves all of it back, and changes no balance in the end.
  pub unreserve-reserve :
      (who : AccountId) (amount : Balance)
      → amount ≤ s.free_balance a who
      → s.free_balance a who + s.reserved_balance a who < u128_mod
      → Returns ((reserve a who amount >> unreserve a who amount) s) λ left s'.
        (left ≡ 0)
        × ((b : AssetId) (w : AccountId)
            → (s'.free_balance b w ≡ s.free_balance b w)
              × (s'.reserved_balance b w ≡ s.reserved_balance b w))
  unfolding reserve unreserve
  unreserve-reserve who amount funds small = ground arith

  -- Unreserving moves the smaller of the amount and the reserve, and returns the rest.
  pub unreserve_moves :
      (who : AccountId) (amount : Balance)
      → s.free_balance a who + s.reserved_balance a who < u128_mod
      → Returns (unreserve a who amount s) λ left s'.
        let moved = min (s.reserved_balance a who) amount in
        (left + moved ≡ amount)
        × (s'.free_balance a who ≡ s.free_balance a who + moved)
        × (s'.reserved_balance a who + moved ≡ s.reserved_balance a who)
  unfolding unreserve
  unreserve_moves who amount small = ground arith

  -- Issuing funds and dropping the token restores the total issuance, also where it saturates.
  pub drop-issue :
      (amount : Balance)
      → s.total_issuance a < u128_mod
      → Returns
          ((do n ← Currency.issue (pure a) amount; Negative.drop a n) s)
          λ _ s'. (b : AssetId) → s'.total_issuance b ≡ s.total_issuance b
  unfolding Currency.issue Negative.drop
  drop-issue amount small = ground arith

  -- Burning does not lower the total issuance: it stays as it was, and the drop of the returned
  -- token then raises it by the amount that was to be burnt. The amount is at most the issuance, and
  -- the two together fit a `u128`.
  pub drop-burn_raises :
      (amount : Balance)
      → amount ≤ s.total_issuance a
      → s.total_issuance a + amount < u128_mod
      → Returns (Currency.burn (pure a) amount s) (λ p s'. (s' ≡ s) × (p.amount ≡ amount))
        × Returns
            ((do p ← Currency.burn (pure a) amount; Positive.drop a p) s)
            (λ _ s'. s'.total_issuance a ≡ s.total_issuance a + amount)
  unfolding Currency.burn Positive.drop
  drop-burn_raises amount funds room = (ground arith, ground arith)
