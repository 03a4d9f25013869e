-- ===== src/Bridge/Sound.antt =====
-- What every call of rio-bridge/src/lib.rs keeps, whether it returns or fails.
use riochain.Prelude.{
  ◌≡◌, refl, true, none, some, List, [], ◌∷◌, ◌++◌, arith, ◌==◌, All, contains, IsDistinct,
  Bool-cases, Option, String, inl, inr,
}
use riochain.Prelude.Maps.{update, exists}
use riochain.Prelude.Outcome.{
  Leaves, Leaves->>=, or_else, Leaves-or_else, modify, fail, expect, ◌>>◌,
}
use riochain.Assets.Types.{AccountId, AssetId, Balance}
use riochain.Assets.Module.{make_transfer_with_event}
use riochain.Assets.Calls
use riochain.Assets.Calls.{Chain, Origin, no_hooks, root_origin, Trait}
use riochain.Assets.Supply.{IsBacked, mint_free-IsBacked, make_transfer-IsBacked}
use riochain.Bridge.Types.{TxHash, Deposit, Bridge}
use riochain.Bridge.Module
use riochain.Bridge.Module.{
  Call, simple_deposit_with_event, hold_deposit_with_event, forget, release, set_history,
}
use riochain.Bridge.Dispatch.{BridgeCall, dispatch, IsListed}

-- A deposit that waits names a listed account and its transaction.
abbrev IsWaiting : List AccountId → Deposit → Type 0
IsWaiting accounts d = (contains accounts d.account_id ≡ true) × (exists d.tx_hash ≡ true)

abbrev AreWaiting : List AccountId → Bridge → Type 0
AreWaiting accounts b = (who : AccountId) → All (IsWaiting accounts) (b.pending_deposit_list who)

-- The asset is backed, the vault is listed, and so are the accounts of the deposits that wait,
-- each with its transaction.
abbrev pub IsSound : List AccountId → AssetId → Chain Bridge → Type 0
IsSound accounts asset c =
    IsBacked accounts asset c.assets
    × (contains accounts c.pallet.pending_withdraw_vault ≡ true)
    × AreWaiting accounts c.pallet

module _ (accounts : List AccountId) where
  AreWaiting-append :
      (ds : List Deposit) (d : Deposit)
      → All (IsWaiting accounts) ds
      → IsWaiting accounts d
      → All (IsWaiting accounts) (ds ++ d ∷ [])
  AreWaiting-append [] d hs h = (h, tt)
  AreWaiting-append (x ∷ ds) d hs h = (hs.0, AreWaiting-append ds d hs.1 h)

  AreWaiting-update :
      (b : Bridge) (k : AccountId) (ds : List Deposit)
      → AreWaiting accounts b
      → All (IsWaiting accounts) ds
      → (who : AccountId) → All (IsWaiting accounts) (update b.pending_deposit_list k ds who)
  AreWaiting-update b k ds hs h who = elim (Bool-cases (k == who)) [
    | inl e ↦ rw e h
    | inr e ↦ rw e (hs who)
  ]

expect_found :
    {S A : Type 0} (o : Option A) (s : S) (P : S → Type 0)
    → exists o ≡ true
    → P s
    → Leaves (expect o s) P
expect_found none s P found h = absurd (ground arith)
expect_found (some a) s P found h = h

-- What `release` does where a deposit fails.
abbrev put_back : AccountId → List Deposit → String → Call
put_back account_id ds e = do
  Calls.on_pallet
      (modify λ b. record b { pending_deposit_list = update b.pending_deposit_list account_id ds })
  fail e

module _ (root : AccountId) (accounts : List AccountId) (distinct : IsDistinct accounts)
    (asset : AssetId) where
  simple_deposit-IsSound :
      (who : AccountId) (amount : Balance) (tx : TxHash) (c : Chain Bridge)
      → contains accounts who ≡ true
      → IsSound accounts asset c
      → Leaves (simple_deposit_with_event (no_hooks root) who amount tx c) (IsSound accounts asset)
  unfolding simple_deposit_with_event Calls.mint
  simple_deposit-IsSound who amount tx c hw h =
      ground (
        arith,
        mint_free-IsBacked accounts distinct asset c.pallet.asset_id root who amount c.assets,
      )

  hold_deposit-IsSound :
      (who : AccountId) (amount : Balance) (tx : TxHash) (c : Chain Bridge)
      → contains accounts who ≡ true
      → IsSound accounts asset c
      → Leaves (hold_deposit_with_event who amount tx c) (IsSound accounts asset)
  unfolding hold_deposit_with_event
  hold_deposit-IsSound who amount tx c hw h = (
    h.0,
    h.1,
    AreWaiting-update accounts c.pallet who _ h.2
        (AreWaiting-append accounts (c.pallet.pending_deposit_list who) _ (h.2 who) (hw, refl)),
  )

  abbrev StaysSound : Chain Bridge → Type 0
  StaysSound = IsSound accounts asset

  -- One round of `release`, once the transaction of the deposit is read.
  abbrev attempt : AccountId → Deposit → List Deposit → TxHash → Call
  attempt who d rest tx =
      or_else (simple_deposit_with_event (no_hooks root) d.account_id d.amount tx)
        (put_back who (d ∷ rest))

  abbrev release_with : AccountId → Deposit → List Deposit → TxHash → Call
  release_with who d rest tx = do attempt who d rest tx; release (no_hooks root) who rest

  release-IsSound :
      (who : AccountId) (ds : List Deposit) (c : Chain Bridge)
      → All (IsWaiting accounts) ds
      → IsSound accounts asset c
      → Leaves (release (no_hooks root) who ds c) (IsSound accounts asset)
  unfolding release
  release-IsSound who [] c hs h = h
  release-IsSound who (d ∷ rest) c hs h =
      Leaves->>= (λ tx. release_with who d rest tx) StaysSound StaysSound (expect d.tx_hash) c
        (expect_found d.tx_hash c StaysSound hs.0.1 h) (λ c' h'. h')
        λ tx c' h'.
          Leaves->>= (λ (_ : Unit). release (no_hooks root) who rest) StaysSound StaysSound
            (attempt who d rest tx) c'
            (Leaves-or_else (put_back who (d ∷ rest)) StaysSound
              (simple_deposit_with_event (no_hooks root) d.account_id d.amount tx) c'
              (simple_deposit-IsSound d.account_id d.amount tx c' hs.0.0 h')
              (λ x c2 h2.
                (h2.0, h2.1, AreWaiting-update accounts c2.pallet who (d ∷ rest) h2.2 hs)))
            (λ c2 h2. h2) (λ _ c2 h2. release-IsSound who rest c2 hs.1 h2)

  forget-IsSound :
      (ds : List Deposit) (c : Chain Bridge)
      → All (IsWaiting accounts) ds
      → IsSound accounts asset c
      → Leaves (forget ds c) (IsSound accounts asset)
  unfolding forget
  forget-IsSound [] c hs h = h
  forget-IsSound (d ∷ rest) c hs h =
      Leaves->>= (λ tx. do set_history tx none; forget rest) StaysSound StaysSound
        (expect d.tx_hash) c (expect_found d.tx_hash c StaysSound hs.0.1 h) (λ c' h'. h')
        λ tx c' h'. forget-IsSound rest _ hs.1 (h'.0, h'.1, h'.2)

  transfer-IsSound :
      (from to : AccountId) (amount : Balance) (a : AssetId) (c : Chain Bridge)
      → contains accounts from ≡ true
      → contains accounts to ≡ true
      → IsSound accounts asset c
      → Leaves
          (Calls.on_assets (make_transfer_with_event a from to amount) c)
          (IsSound accounts asset)
  unfolding make_transfer_with_event
  transfer-IsSound from to amount a c hf ht h =
      ground (arith, make_transfer-IsBacked accounts distinct asset a from to amount c.assets)

  deposit-IsSound :
      (origin : Origin) (who : AccountId) (amount : Balance) (tx : TxHash) (c : Chain Bridge)
      → contains accounts who ≡ true
      → StaysSound c
      → Leaves (Module.deposit (no_hooks root) origin who amount tx c) StaysSound
  unfolding Module.deposit
  deposit-IsSound origin who amount tx c hw h = ground (
    arith,
    hold_deposit-IsSound who amount tx c hw h,
    simple_deposit-IsSound who amount tx c hw h,
  )

  refund-IsSound :
      (origin : Origin) (who : AccountId) (amount : Balance) (c : Chain Bridge)
      → contains accounts who ≡ true
      → StaysSound c
      → Leaves (Module.refund origin who amount c) StaysSound
  unfolding Module.refund
  refund-IsSound origin who amount c hw h = ground (
    arith,
    transfer-IsSound c.pallet.pending_withdraw_vault who amount c.pallet.asset_id c h.1 hw h,
  )

  withdraw-IsSound :
      (origin : Origin) (who : AccountId) (amount : Balance) (c : Chain Bridge)
      → contains accounts who ≡ true
      → StaysSound c
      → Leaves (Module.withdraw origin who amount c) StaysSound
  unfolding Module.withdraw
  withdraw-IsSound origin who amount c hw h = ground (
    arith,
    transfer-IsSound who c.pallet.pending_withdraw_vault amount c.pallet.asset_id c hw h.1 h,
  )

  withdraw_finish-IsSound :
      (origin : Origin) (who : AccountId) (amount : Balance) (c : Chain Bridge)
      → StaysSound c
      → Leaves (Module.withdraw_finish origin who amount c) StaysSound
  unfolding Module.withdraw_finish
  withdraw_finish-IsSound origin who amount c h = ground arith

  abbrev taken : AccountId → Chain Bridge → Chain Bridge
  taken who c = record c {
    pallet = record c.pallet { pending_deposit_list = update c.pallet.pending_deposit_list who [] };
  }

  -- The deposits taken off the list all wait, and what is left is sound.
  taken-IsSound : (who : AccountId) (c : Chain Bridge) → StaysSound c → StaysSound (taken who c)
  taken-IsSound who c h = (h.0, h.1, AreWaiting-update accounts c.pallet who [] h.2 tt)

  mark_black-IsSound :
      (origin : Origin) (who : AccountId) (c : Chain Bridge)
      → StaysSound c
      → Leaves (Module.mark_black origin who c) StaysSound
  unfolding Module.mark_black Module.mark_with_event
  mark_black-IsSound origin who c h = ground (
    arith,
    forget-IsSound (c.pallet.pending_deposit_list who) (taken who c) (h.2 who)
        (taken-IsSound who c h),
  )

  mark_white-IsSound :
      (origin : Origin) (who : AccountId) (c : Chain Bridge)
      → StaysSound c
      → Leaves (Module.mark_white (no_hooks root) origin who c) StaysSound
  unfolding Module.mark_white Module.mark_with_event
  mark_white-IsSound origin who c h = ground (
    arith,
    release-IsSound who (c.pallet.pending_deposit_list who) (taken who c) (h.2 who)
        (taken-IsSound who c h),
  )

  pub dispatch-IsSound :
      (origin : Origin) (call : BridgeCall) (c : Chain Bridge)
      → IsListed accounts call
      → StaysSound c
      → Leaves (dispatch (no_hooks root) origin call c) StaysSound
  unfolding dispatch
  dispatch-IsSound origin BridgeCall.pause c hl h = unfold Module.pause in ground arith
  dispatch-IsSound origin BridgeCall.resume c hl h = unfold Module.resume in ground arith
  dispatch-IsSound origin (BridgeCall.delete_admin who) c hl h =
      unfold Module.delete_admin in ground arith
  dispatch-IsSound origin (BridgeCall.update_admin who auth) c hl h =
      unfold Module.update_admin in ground arith
  dispatch-IsSound origin (BridgeCall.deposit who amount tx) c hl h =
      deposit-IsSound origin who amount tx c hl h
  dispatch-IsSound origin (BridgeCall.refund who amount) c hl h =
      refund-IsSound origin who amount c hl h
  dispatch-IsSound origin (BridgeCall.withdraw_finish who amount) c hl h =
      withdraw_finish-IsSound origin who amount c h
  dispatch-IsSound origin (BridgeCall.withdraw who amount) c hl h =
      withdraw-IsSound origin who amount c hl h
  dispatch-IsSound origin (BridgeCall.mark_black who) c hl h = mark_black-IsSound origin who c h
  dispatch-IsSound origin (BridgeCall.mark_white who) c hl h = mark_white-IsSound origin who c h
