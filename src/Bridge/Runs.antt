-- ===== src/Bridge/Runs.antt =====
-- Sequences of withdrawals, of those that are finished and of refunds: the vault stays covered.
use riochain.Prelude.{◌≡◌, ◌≢◌, true, List, [], ◌∷◌, arith, All, contains, IsDistinct}
use riochain.Prelude.Outcome.{
  Outcome, ok, err, panic, Returns, Returns->>=, Leaves, ignore, pure, ◌>>◌,
}
use riochain.Assets.Types.{AccountId, AssetId, Balance}
use riochain.Assets.Module.{make_transfer_with_event}
use riochain.Assets.Supply.{IsBacked, make_transfer-IsBacked}
use riochain.Assets.Calls.{Chain, Origin}
use riochain.Bridge.Types.{Bridge}
use riochain.Bridge.Module.{Call, withdraw, withdraw_finish, refund}
use riochain.Bridge.Vault.{
  IsCovered, withdraw-IsCovered, withdraw_finish-IsCovered, refund-IsCovered,
}

-- A call that books the debts of the vault.
pub data Booking : Type 0 where
  asked finished refunded : AccountId → Balance → Booking

abbrev pub who_of : Booking → AccountId
who_of (asked who amount) = who
who_of (finished who amount) = who
who_of (refunded who amount) = who

unfoldable pub book : Origin → Booking → Call
unfolding withdraw withdraw_finish refund
book origin (asked who amount) = withdraw origin who amount
book origin (finished who amount) = withdraw_finish origin who amount
book origin (refunded who amount) = refund origin who amount

-- Each call runs after the one before it, whether that returned or failed.
unfoldable pub book_all : List (Origin × Booking) → Call
unfolding book
book_all [] = pure tt
book_all ((origin, b) ∷ rest) = do ignore (book origin b); book_all rest

module _ (accounts : List AccountId) (vault : AccountId) (asset : AssetId) where
  -- The vault is covered, the asset backed, and neither is exchanged for another.
  abbrev pub IsSolvent : Chain Bridge → Type 0
  IsSolvent c =
      IsCovered accounts c
      × IsBacked accounts asset c.assets
      × (c.pallet.pending_withdraw_vault ≡ vault)
      × (c.pallet.asset_id ≡ asset)

  abbrev Stays : Chain Bridge → Type 0
  Stays c =
      IsBacked accounts asset c.assets
      × (c.pallet.pending_withdraw_vault ≡ vault)
      × (c.pallet.asset_id ≡ asset)

  both :
      (o : Outcome (Chain Bridge) Unit)
      → Leaves o (IsCovered accounts)
      → Leaves o Stays
      → Returns
          (elim o as (λ _. Outcome (Chain Bridge) Unit) [
            | ok _ s' ↦ ok tt s'
            | err _ s' ↦ ok tt s'
            | panic ↦ panic
          ])
          (λ _. IsSolvent)
  both (ok a c) h k = (h, k.0, k.1, k.2)
  both (err e c) h k = (h, k.0, k.1, k.2)
  both panic h k = absurd h

module _ (accounts : List AccountId) (distinct : IsDistinct accounts) (vault : AccountId)
    (asset : AssetId) where
  book-Stays :
      (origin : Origin) (b : Booking) (c : Chain Bridge)
      → contains accounts (who_of b) ≡ true
      → contains accounts vault ≡ true
      → Stays accounts vault asset c
      → Leaves (book origin b c) (Stays accounts vault asset)
  unfolding book withdraw withdraw_finish refund make_transfer_with_event
  book-Stays origin (asked who amount) c hw hv k = ground (
    arith,
    make_transfer-IsBacked accounts distinct asset c.pallet.asset_id who
        c.pallet.pending_withdraw_vault amount c.assets,
  )
  book-Stays origin (finished who amount) c hw hv k = ground arith
  book-Stays origin (refunded who amount) c hw hv k = ground (
    arith,
    make_transfer-IsBacked accounts distinct asset c.pallet.asset_id c.pallet.pending_withdraw_vault
        who amount c.assets,
  )

  book-IsCovered :
      (origin : Origin) (b : Booking) (c : Chain Bridge)
      → contains accounts (who_of b) ≡ true
      → contains accounts vault ≡ true
      → who_of b ≢ vault
      → IsSolvent accounts vault asset c
      → Leaves (book origin b c) (IsCovered accounts)
  unfolding book
  book-IsCovered origin (asked who amount) c hw hv ne s =
      withdraw-IsCovered accounts distinct c origin who amount hw (rw s.2 hv) (rw s.2 ne)
        (rw s.3 s.1) s.0
  book-IsCovered origin (finished who amount) c hw hv ne s =
      withdraw_finish-IsCovered accounts distinct c origin who amount hw s.0
  book-IsCovered origin (refunded who amount) c hw hv ne s =
      refund-IsCovered accounts distinct c origin who amount hw (rw s.2 hv) (rw s.3 s.1) s.0

  -- Withdrawals, their completions and refunds, in any order and from any origin, keep the vault
  -- covered: it holds what all the accounts together are owed. The asset stays backed, and none of
  -- the calls panics, whether it returns or fails. The listed accounts are distinct, the vault and
  -- the account of every call are among them, and no call names the vault as its account.
  pub book_all-IsSolvent :
      (calls : List (Origin × Booking)) (c : Chain Bridge)
      → contains accounts vault ≡ true
      → All
          (λ (x : Origin × Booking). (contains accounts (who_of x.1) ≡ true) × (who_of x.1 ≢ vault))
          calls
      → IsSolvent accounts vault asset c
      → Returns (book_all calls c) (λ _. IsSolvent accounts vault asset)
  unfolding book_all
  book_all-IsSolvent [] c hv listed s = s
  book_all-IsSolvent ((origin, b) ∷ rest) c hv listed s =
      Returns->>= (λ (_ : Unit). book_all rest) (λ _. IsSolvent accounts vault asset)
        (λ _. IsSolvent accounts vault asset) (ignore (book origin b)) c
        (both accounts vault asset (book origin b c)
          (book-IsCovered origin b c listed.0.0 hv listed.0.1 s)
          (book-Stays origin b c listed.0.0 hv (s.1, s.2, s.3)))
        (λ _ c' s'. book_all-IsSolvent rest c' hv listed.1 s')
