-- ===== src/Assets/Ledger/Dispatched.antt =====
-- Each call of rio-assets has its effect on the ledger, at every asset and account.
use riochain.Prelude.{ℕ, ◌≡◌, true, Option-cases, inl, inr, some, List, arith, contains, IsDistinct}
use riochain.Prelude.Outcome.{Outcome, Ends}
use riochain.Assets.Types.{AccountId, AssetId, Balance}
use riochain.Assets.Module.{make_transfer_with_event}
use riochain.Assets.Calls
use riochain.Assets.Calls.{Chain, Origin, no_hooks}
use riochain.Assets.Supply.{IsBacked}
use riochain.Assets.Runs.{Call, dispatch, IsSigned, IsListed}
use riochain.Assets.Ledger.{
  ledger, Effect, nothing, minted, burned, created, apply, IsPossible, effect_of,
}
use riochain.Assets.Ledger.Effects.{
  AgreeAt, make_transfer_at, mint_free_at, burn_free_at, reserve_at, unreserve_at, create_asset_at,
}

abbrev pub DoesAt :
    {X : Type 0} → AssetId → AccountId → Effect → Chain X → Outcome (Chain X) Unit → Type 0
DoesAt b who e c o =
    Ends o
      (λ _ c'.
        IsPossible e (ledger c.assets)
        × AgreeAt b who (ledger c'.assets) (apply e (ledger c.assets)))
      (λ c'. AgreeAt b who (ledger c'.assets) (ledger c.assets))

module _ {X : Type 0} (root : AccountId) (accounts : List AccountId)
    (distinct : IsDistinct accounts) (b : AssetId) (x : AccountId) where
  create_at :
      (origin : Origin) (n : Balance) (a : AssetId) (symbol : List ℕ) (c : Chain X)
      → contains accounts root ≡ true
      → IsBacked accounts a c.assets
      → DoesAt b x (created a root n) c (Calls.create (no_hooks root) origin n a symbol c)
  unfolding Calls.create
  create_at origin n a symbol c hr h = ground (
    arith,
    create_asset_at accounts distinct b x a symbol (some root)
        (record { initial_issuance = n; permissions = Calls.owned_by root }) c.assets hr h,
  )

  transfer_at :
      (origin : Origin) (a : AssetId) (to : AccountId) (n : Balance) (c : Chain X)
      → IsSigned accounts origin
      → contains accounts to ≡ true
      → IsBacked accounts a c.assets
      → DoesAt b x
          (effect_of root origin.signer (Call.transfer a to n))
          c
          (Calls.transfer (no_hooks root) origin a to n c)
  unfolding Calls.transfer make_transfer_with_event
  transfer_at origin a to n c hs ht h = elim (Option-cases origin.signer) [
    | inl e ↦ rw e (ground arith)
    | inr (who, e) ↦
        rw e (ground (arith, make_transfer_at accounts distinct b x a who to n c.assets))
  ]

  mint_at :
      (origin : Origin) (a : AssetId) (to : AccountId) (n : Balance) (c : Chain X)
      → contains accounts to ≡ true
      → IsBacked accounts a c.assets
      → DoesAt b x (minted a to n) c (Calls.mint (no_hooks root) origin a to n c)
  unfolding Calls.mint
  mint_at origin a to n c ht h =
      ground (arith, mint_free_at accounts distinct b x a root to n c.assets ht h)

  burn_at :
      (origin : Origin) (a : AssetId) (who : AccountId) (n : Balance) (c : Chain X)
      → DoesAt b x (burned a who n) c (Calls.burn (no_hooks root) origin a who n c)
  unfolding Calls.burn
  burn_at origin a who n c =
      ground (arith, burn_free_at accounts distinct b x a root who n c.assets)

  set_reserve_at :
      (origin : Origin) (a : AssetId) (who : AccountId) (n : Balance) (c : Chain X)
      → contains accounts who ≡ true
      → IsBacked accounts a c.assets
      → DoesAt b x nothing c (Calls.set_reserve (no_hooks root) origin a who n c)
  unfolding Calls.set_reserve
  set_reserve_at origin a who n c hw h =
      ground (arith, reserve_at accounts distinct b x a who n c.assets hw h)

  set_unreserve_at :
      (origin : Origin) (a : AssetId) (who : AccountId) (n : Balance) (c : Chain X)
      → contains accounts who ≡ true
      → IsBacked accounts a c.assets
      → DoesAt b x nothing c (Calls.set_unreserve (no_hooks root) origin a who n c)
  unfolding Calls.set_unreserve
  set_unreserve_at origin a who n c hw h =
      ground (arith, unreserve_at accounts distinct b x a who n c.assets hw h)

  pub dispatch_at :
      (origin : Origin) (call : Call) (c : Chain X)
      → contains accounts root ≡ true
      → IsSigned accounts origin
      → IsListed accounts call
      → ((a : AssetId) → IsBacked accounts a c.assets)
      → DoesAt b x (effect_of root origin.signer call) c (dispatch (no_hooks root) origin call c)
  unfolding dispatch
  dispatch_at origin (Call.create n a symbol) c hr hs hl h = create_at origin n a symbol c hr (h a)
  dispatch_at origin (Call.transfer a to n) c hr hs hl h = transfer_at origin a to n c hs hl (h a)
  dispatch_at origin (Call.mint a to n) c hr hs hl h = mint_at origin a to n c hl (h a)
  dispatch_at origin (Call.burn a to n) c hr hs hl h = burn_at origin a to n c
  dispatch_at origin (Call.set_reserve a to n) c hr hs hl h =
      set_reserve_at origin a to n c hl (h a)
  dispatch_at origin (Call.set_unreserve a to n) c hr hs hl h =
      set_unreserve_at origin a to n c hl (h a)
  dispatch_at origin (Call.update_permission a p) c hr hs hl h =
      unfold Calls.update_permission in ground arith
  dispatch_at origin (Call.update_restriction a r not_allow) c hr hs hl h =
      unfold Calls.update_restriction in ground arith
