-- ===== src/Assets/Runs/Backing.antt =====
-- Every call, and so every sequence of calls, leaves each asset backed.
use riochain.Prelude.{ℕ, ◌<◌, ◌≡◌, true, some, List, [], ◌∷◌, arith, contains, IsDistinct, All}
use riochain.Prelude.Words.{u128_mod}
use riochain.Prelude.Maps.{get_or}
use riochain.Prelude.Outcome.{Leaves}
use riochain.Assets.Types.{AccountId, AssetId, Balance}
use riochain.Assets.Calls
use riochain.Assets.Calls.{Chain, Origin, no_hooks}
use riochain.Assets.Supply.{
  IsBacked, create_asset-IsBacked, make_transfer-IsBacked, mint_free-IsBacked, burn_free-IsBacked,
  reserve-IsBacked, unreserve-IsBacked,
}
use riochain.Assets.Runs.{Call, dispatch, run, settle, Leaves-settle, IsSigned, IsListed}

module _ {X : Type 0} (root : AccountId) (accounts : List AccountId)
    (distinct : IsDistinct accounts) (b : AssetId) where
  create-IsBacked :
      (origin : Origin) (balance : Balance) (a : AssetId) (symbol : List ℕ) (c : Chain X)
      → contains accounts root ≡ true
      → balance < u128_mod
      → IsBacked accounts b c.assets
      → Leaves
          (Calls.create (no_hooks root) origin balance a symbol c)
          (λ c'. IsBacked accounts b c'.assets)
  unfolding Calls.create
  create-IsBacked origin balance a symbol c hr small h = ground (
    arith,
    create_asset-IsBacked accounts distinct b a symbol (some root)
        (record { initial_issuance = balance; permissions = Calls.owned_by root }) c.assets hr small
        h,
  )

  transfer-IsBacked :
      (origin : Origin) (a : AssetId) (to : AccountId) (amount : Balance) (c : Chain X)
      → IsSigned accounts origin
      → contains accounts to ≡ true
      → IsBacked accounts b c.assets
      → Leaves
          (Calls.transfer (no_hooks root) origin a to amount c)
          (λ c'. IsBacked accounts b c'.assets)
  unfolding Calls.transfer
  transfer-IsBacked origin a to amount c hs ht h = ground (
    arith,
    make_transfer-IsBacked accounts distinct b a (get_or 0 origin.signer) to amount c.assets,
  )

  mint-IsBacked :
      (origin : Origin) (a : AssetId) (to : AccountId) (amount : Balance) (c : Chain X)
      → contains accounts to ≡ true
      → IsBacked accounts b c.assets
      → Leaves
          (Calls.mint (no_hooks root) origin a to amount c)
          (λ c'. IsBacked accounts b c'.assets)
  unfolding Calls.mint
  mint-IsBacked origin a to amount c ht h =
      ground (arith, mint_free-IsBacked accounts distinct b a root to amount c.assets)

  burn-IsBacked :
      (origin : Origin) (a : AssetId) (to : AccountId) (amount : Balance) (c : Chain X)
      → contains accounts to ≡ true
      → IsBacked accounts b c.assets
      → Leaves
          (Calls.burn (no_hooks root) origin a to amount c)
          (λ c'. IsBacked accounts b c'.assets)
  unfolding Calls.burn
  burn-IsBacked origin a to amount c ht h =
      ground (arith, burn_free-IsBacked accounts distinct b a root to amount c.assets)

  set_reserve-IsBacked :
      (origin : Origin) (a : AssetId) (who : AccountId) (amount : Balance) (c : Chain X)
      → contains accounts who ≡ true
      → IsBacked accounts b c.assets
      → Leaves
          (Calls.set_reserve (no_hooks root) origin a who amount c)
          (λ c'. IsBacked accounts b c'.assets)
  unfolding Calls.set_reserve
  set_reserve-IsBacked origin a who amount c hw h =
      ground (arith, reserve-IsBacked accounts distinct b a who amount c.assets)

  set_unreserve-IsBacked :
      (origin : Origin) (a : AssetId) (who : AccountId) (amount : Balance) (c : Chain X)
      → contains accounts who ≡ true
      → IsBacked accounts b c.assets
      → Leaves
          (Calls.set_unreserve (no_hooks root) origin a who amount c)
          (λ c'. IsBacked accounts b c'.assets)
  unfolding Calls.set_unreserve
  set_unreserve-IsBacked origin a who amount c hw h =
      ground (arith, unreserve-IsBacked accounts distinct b a who amount c.assets)

  -- Any call, from any origin, leaves the asset backed, and panics never.
  pub dispatch-IsBacked :
      (origin : Origin) (call : Call) (c : Chain X)
      → contains accounts root ≡ true
      → IsSigned accounts origin
      → IsListed accounts call
      → IsBacked accounts b c.assets
      → Leaves (dispatch (no_hooks root) origin call c) (λ c'. IsBacked accounts b c'.assets)
  unfolding dispatch
  dispatch-IsBacked origin (Call.create balance a symbol) c hr hs hl h =
      create-IsBacked origin balance a symbol c hr hl h
  dispatch-IsBacked origin (Call.transfer a to amount) c hr hs hl h =
      transfer-IsBacked origin a to amount c hs hl h
  dispatch-IsBacked origin (Call.mint a to amount) c hr hs hl h =
      mint-IsBacked origin a to amount c hl h
  dispatch-IsBacked origin (Call.burn a to amount) c hr hs hl h =
      burn-IsBacked origin a to amount c hl h
  dispatch-IsBacked origin (Call.set_reserve a to amount) c hr hs hl h =
      set_reserve-IsBacked origin a to amount c hl h
  dispatch-IsBacked origin (Call.set_unreserve a to amount) c hr hs hl h =
      set_unreserve-IsBacked origin a to amount c hl h
  dispatch-IsBacked origin (Call.update_permission a p) c hr hs hl h =
      unfold Calls.update_permission in ground arith
  dispatch-IsBacked origin (Call.update_restriction a r not_allow) c hr hs hl h =
      unfold Calls.update_restriction in ground arith

  -- After any sequence of calls, by any origins, failing or not, the asset is backed: what the
  -- listed accounts hold, free or reserved, is the total issuance. The accounts that the calls
  -- name, the signers and the root key are listed, no account twice, and a created asset gets a
  -- balance that is a `u128`. The asset is backed at the start, and the asset hooks do nothing.
  pub run-IsBacked :
      (calls : List (Origin × Call)) (c : Chain X)
      → contains accounts root ≡ true
      → All (λ e. IsSigned accounts e.0 × IsListed accounts e.1) calls
      → IsBacked accounts b c.assets
      → IsBacked accounts b (run (no_hooks root) calls c).assets
  unfolding run
  run-IsBacked [] c hr hl h = h
  run-IsBacked ((origin, call) ∷ rest) c hr hl h =
      let o = dispatch (no_hooks root) origin call c in
      run-IsBacked rest (settle c o) hr hl.1 (
        Leaves-settle c o (λ c'. IsBacked accounts b c'.assets)
          (dispatch-IsBacked origin call c hr hl.0.0 hl.0.1 h))
