-- ===== src/Bridge/Seen.antt =====
-- Which calls of rio-bridge/src/lib.rs leave the history of deposits with a hash that it has.
use riochain.Prelude.{◌≡◌, Bool, true, false, List, [], ◌∷◌, arith, All, String, Option, none, some}
use riochain.Prelude.Maps.{update}
use riochain.Prelude.Outcome.{Keeps, Keeps->>=, Keeps-or_else, or_else, modify, fail, expect, ◌>>◌}
use riochain.Assets.Types.{AccountId, Balance}
use riochain.Assets.Module.{make_transfer_with_event}
use riochain.Assets.Calls
use riochain.Assets.Calls.{Chain, Origin, no_hooks}
use riochain.Assets.Runs.{settle, Keeps-settle}
use riochain.Bridge.Types.{TxHash, Deposit, Bridge}
use riochain.Bridge.Module
use riochain.Bridge.Module.{
  Call, is_tx_seen, simple_deposit_with_event, hold_deposit_with_event, release,
}
use riochain.Bridge.Dispatch.{BridgeCall, dispatch, run}

-- `mark_black` alone takes hashes out of the history, those of the deposits held for the account.
abbrev pub forgets : BridgeCall → Bool
forgets (BridgeCall.mark_black who) = true
forgets _ = false

-- The history has the hash.
abbrev pub Seen : TxHash → Chain Bridge → Type 0
Seen tx c = is_tx_seen tx c.pallet ≡ true

expect_keeps : {S A : Type 0} (o : Option A) (s : S) (P : S → Type 0) → P s → Keeps (expect o s) P
expect_keeps none s P h = tt
expect_keeps (some a) s P h = h

module _ (root : AccountId) (tx : TxHash) where
  simple_deposit-Seen :
      (who : AccountId) (amount : Balance) (tx' : TxHash) (c : Chain Bridge)
      → Seen tx c
      → Keeps (simple_deposit_with_event (no_hooks root) who amount tx' c) (Seen tx)
  unfolding simple_deposit_with_event Calls.mint is_tx_seen
  simple_deposit-Seen who amount tx' c h = ground arith

  -- What `release` does where a deposit fails.
  abbrev put_back : AccountId → List Deposit → String → Call
  put_back account_id ds e = do
    Calls.on_pallet (
        modify λ b. record b { pending_deposit_list = update b.pending_deposit_list account_id ds })
    fail e

  put_back-Seen :
      (who : AccountId) (ds : List Deposit) (e : String) (c : Chain Bridge)
      → Seen tx c
      → Keeps (put_back who ds e c) (Seen tx)
  unfolding is_tx_seen
  put_back-Seen who ds e c h = h

  -- One round of `release`, once the transaction of the deposit is read.
  abbrev attempt : AccountId → Deposit → List Deposit → TxHash → Call
  attempt who d rest tx' =
      or_else (simple_deposit_with_event (no_hooks root) d.account_id d.amount tx')
        (put_back who (d ∷ rest))

  abbrev release_with : AccountId → Deposit → List Deposit → TxHash → Call
  release_with who d rest tx' = do attempt who d rest tx'; release (no_hooks root) who rest

  release-Seen :
      (who : AccountId) (ds : List Deposit) (c : Chain Bridge)
      → Seen tx c
      → Keeps (release (no_hooks root) who ds c) (Seen tx)
  unfolding release
  release-Seen who [] c h = h
  release-Seen who (d ∷ rest) c h =
      Keeps->>= (λ tx'. release_with who d rest tx') (Seen tx) (expect d.tx_hash) c
        (expect_keeps d.tx_hash c (Seen tx) h)
        λ tx' c' h'.
          Keeps->>= (λ (_ : Unit). release (no_hooks root) who rest) (Seen tx)
            (attempt who d rest tx') c'
            (Keeps-or_else (put_back who (d ∷ rest)) (Seen tx)
              (simple_deposit_with_event (no_hooks root) d.account_id d.amount tx') c'
              (simple_deposit-Seen d.account_id d.amount tx' c' h')
              (λ e c2 h2. put_back-Seen who (d ∷ rest) e c2 h2))
            (λ _ c2 h2. release-Seen who rest c2 h2)

  deposit-Seen :
      (origin : Origin) (who : AccountId) (amount : Balance) (tx' : TxHash) (c : Chain Bridge)
      → Seen tx c
      → Keeps (Module.deposit (no_hooks root) origin who amount tx' c) (Seen tx)
  unfolding Module.deposit Calls.mint
  deposit-Seen origin who amount tx' c h = ground arith

  abbrev taken : AccountId → Chain Bridge → Chain Bridge
  taken who c = record c {
    pallet = record c.pallet { pending_deposit_list = update c.pallet.pending_deposit_list who [] };
  }

  taken-Seen : (who : AccountId) (c : Chain Bridge) → Seen tx c → Seen tx (taken who c)
  unfolding is_tx_seen
  taken-Seen who c h = h

  mark_white-Seen :
      (origin : Origin) (who : AccountId) (c : Chain Bridge)
      → Seen tx c
      → Keeps (Module.mark_white (no_hooks root) origin who c) (Seen tx)
  unfolding Module.mark_white Module.mark_with_event is_tx_seen
  mark_white-Seen origin who c h = ground (
    arith,
    release-Seen who (c.pallet.pending_deposit_list who) (taken who c) (taken-Seen who c h),
  )

  dispatch-Seen :
      (origin : Origin) (call : BridgeCall) (c : Chain Bridge)
      → forgets call ≡ false
      → Seen tx c
      → Keeps (dispatch (no_hooks root) origin call c) (Seen tx)
  unfolding dispatch is_tx_seen
  dispatch-Seen origin BridgeCall.pause c hf h = unfold Module.pause in ground arith
  dispatch-Seen origin BridgeCall.resume c hf h = unfold Module.resume in ground arith
  dispatch-Seen origin (BridgeCall.delete_admin who) c hf h =
      unfold Module.delete_admin in ground arith
  dispatch-Seen origin (BridgeCall.update_admin who auth) c hf h =
      unfold Module.update_admin in ground arith
  dispatch-Seen origin (BridgeCall.deposit who amount tx') c hf h =
      deposit-Seen origin who amount tx' c h
  dispatch-Seen origin (BridgeCall.refund who amount) c hf h =
      unfold Module.refund make_transfer_with_event in ground arith
  dispatch-Seen origin (BridgeCall.withdraw_finish who amount) c hf h =
      unfold Module.withdraw_finish in ground arith
  dispatch-Seen origin (BridgeCall.withdraw who amount) c hf h =
      unfold Module.withdraw make_transfer_with_event in ground arith
  dispatch-Seen origin (BridgeCall.mark_black who) c hf h = absurd (ground arith)
  dispatch-Seen origin (BridgeCall.mark_white who) c hf h = mark_white-Seen origin who c h

  -- A hash that the history has stays there over calls of which none is `mark_black`.
  pub run-Seen :
      (calls : List (Origin × BridgeCall)) (c : Chain Bridge)
      → All (λ (e : Origin × BridgeCall). forgets e.1 ≡ false) calls
      → Seen tx c
      → Seen tx (run (no_hooks root) calls c)
  unfolding run
  run-Seen [] c hf h = h
  run-Seen ((origin, call) ∷ rest) c hf h =
      run-Seen rest (settle c (dispatch (no_hooks root) origin call c)) hf.1 (
        Keeps-settle c (dispatch (no_hooks root) origin call c) (Seen tx) h
          (dispatch-Seen origin call c hf.0 h))
