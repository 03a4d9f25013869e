-- ===== src/Bridge/Module.antt =====
-- The calls of rio-bridge/src/lib.rs and the functions that they share.
use riochain.Prelude.{
  Bool, true, false, Option, none, some, List, [], ◌∷◌, ◌++◌, length, ltb, leb, not, ◌==◌, ◌||◌,
  ◌&&◌, if◌then◌else◌, contains,
}
use riochain.Prelude.Maps.{update, exists, get_or}
use riochain.Prelude.Outcome.{
  Action, pure, fail, gets, modify, ensure, expect, or_else, ◌>>=◌, ◌>>◌,
}
use riochain.Assets.Types.{AccountId, Balance}
use riochain.Assets.Module.{make_transfer_with_event}
use riochain.Assets.Calls
use riochain.Assets.Calls.{
  Chain, on_assets, on_pallet, Origin, root_origin, ensure_root, ensure_signed, Trait,
}
use riochain.Bridge.Types.{TxHash, BlackOrWhite, Auth, Deposit, Event, Bridge}

abbrev pub auth_eq : Auth → Auth → Bool
auth_eq Auth.all Auth.all = true
auth_eq Auth.deposit Auth.deposit = true
auth_eq Auth.withdraw Auth.withdraw = true
auth_eq Auth.refund Auth.refund = true
auth_eq Auth.mark Auth.mark = true
auth_eq _ _ = false

abbrev pub Call : Type 0
Call = Action (Chain Bridge) Unit

abbrev deposit_event : Event → Call
deposit_event e = on_pallet (modify λ b. record b { events = e ∷ b.events })

abbrev pub pallet : {A : Type 0} → (Bridge → A) → Action (Chain Bridge) A
pallet f = gets (λ c. f c.pallet)

unfoldable pub is_tx_seen : TxHash → Bridge → Bool
is_tx_seen tx_hash b = exists (b.deposit_history tx_hash)

unfoldable pub has_auth : AccountId → Auth → Bridge → Bool
has_auth account_id auth b = elim (b.admins account_id) [
  | none ↦ false
  | some account_auth ↦ auth_eq account_auth Auth.all || auth_eq account_auth auth
]

abbrev pub pendings : AccountId → Bridge → List Balance
pendings who b = get_or [] (b.pending_withdraws who)

-- `check_list`, and the test that `deposit` makes on it
unfoldable pub must_check : AccountId → Bridge → Bool
must_check account_id b = elim (b.list account_id) [
  | none ↦ true
  | some BlackOrWhite.black ↦ true
  | some BlackOrWhite.white ↦ false
]

abbrev take_pending_deposits : AccountId → Action (Chain Bridge) (List Deposit)
take_pending_deposits account_id = do
  list ← pallet (λ b. b.pending_deposit_list account_id)
  on_pallet
      (modify λ b. record b { pending_deposit_list = update b.pending_deposit_list account_id [] })
  pure list

abbrev pub set_history : TxHash → Option Deposit → Call
set_history tx_hash d =
    on_pallet (modify λ b. record b { deposit_history = update b.deposit_history tx_hash d })

unfoldable pub mark_with_event : AccountId → BlackOrWhite → Call
mark_with_event account_id bow = do
  on_pallet (modify λ b. record b { list = update b.list account_id (some bow) })
  deposit_event (Event.account_marked account_id bow)

-- The loop that leaves out the first entry that equals `amount`.
unfoldable pub remove_one : Balance → List Balance → List Balance
remove_one amount [] = []
remove_one amount (amt ∷ rest) = if amt == amount then rest else amt ∷ remove_one amount rest

-- A list of one entry, or none, is dropped with its key.
unfoldable pub remove_from_pending_withdraws : AccountId → Balance → Call
unfolding remove_one
remove_from_pending_withdraws who amount = do
  list ← pallet (pendings who)
  let left = if ltb 1 (length list) then some (remove_one amount list) else none
  on_pallet (modify λ b. record b { pending_withdraws = update b.pending_withdraws who left })

unfoldable pub hold_deposit_with_event : AccountId → Balance → TxHash → Call
hold_deposit_with_event account_id amount tx_hash = do
  set_history tx_hash (some (record { account_id = account_id; tx_hash = none; amount = amount }))
  on_pallet (
      modify λ b.
        let dep : Deposit = record {
          account_id = account_id;
          tx_hash = some tx_hash;
          amount = amount;
        } in
        record b {
          pending_deposit_list =
              update b.pending_deposit_list account_id
                (b.pending_deposit_list account_id ++ dep ∷ []);
        })
  deposit_event (Event.pending account_id amount tx_hash)

unfoldable pub pause : Origin → Call
pause origin = do ensure_root origin; on_pallet (modify λ b. record b { paused = true })

unfoldable pub resume : Origin → Call
resume origin = do ensure_root origin; on_pallet (modify λ b. record b { paused = false })

unfoldable pub delete_admin : Origin → AccountId → Call
delete_admin origin who = do
  ensure_root origin
  on_pallet (modify λ b. record b { admins = update b.admins who none })

-- `mutate` of a key that exists and `insert` of one that does not write the same.
unfoldable pub update_admin : Origin → AccountId → Auth → Call
update_admin origin who auth = do
  ensure_root origin
  on_pallet (modify λ b. record b { admins = update b.admins who (some auth) })

unfoldable pub withdraw_finish : Origin → AccountId → Balance → Call
unfolding has_auth remove_from_pending_withdraws
withdraw_finish origin who amount = do
  author ← ensure_signed origin
  ensure (← pallet (has_auth author Auth.withdraw)) "no withdraw auth"
  ensure (contains (← pallet (pendings who)) amount) "pending withdraw not found"
  remove_from_pending_withdraws who amount
  deposit_event (Event.withdrawn who amount)

unfoldable pub refund : Origin → AccountId → Balance → Call
unfolding has_auth remove_from_pending_withdraws
refund origin who amount = do
  author ← ensure_signed origin
  asset_id ← pallet (λ b. b.asset_id)
  ensure (← pallet (has_auth author Auth.refund)) "no refund auth"
  ensure (contains (← pallet (pendings who)) amount) "pending withdraw not found"
  vault ← pallet (λ b. b.pending_withdraw_vault)
  on_assets (make_transfer_with_event asset_id vault who amount)
  remove_from_pending_withdraws who amount
  deposit_event (Event.refunded who amount)

unfoldable pub withdraw : Origin → AccountId → Balance → Call
unfolding has_auth
withdraw origin who amount = do
  author ← ensure_signed origin
  asset_id ← pallet (λ b. b.asset_id)
  ensure (← pallet (has_auth author Auth.withdraw)) "no withdraw auth"
  vault ← pallet (λ b. b.pending_withdraw_vault)
  on_assets (make_transfer_with_event asset_id who vault amount)
  on_pallet (
      modify λ b. record b {
        pending_withdraws = update b.pending_withdraws who (some (pendings who b ++ amount ∷ []));
      })
  deposit_event (Event.pending_withdraw who amount)

-- `pendings.iter().for_each(…)` of `mark_black`
unfoldable pub forget : List Deposit → Call
forget [] = pure tt
forget (v ∷ rest) = do tx_hash ← expect v.tx_hash; set_history tx_hash none; forget rest

unfoldable pub mark_black : Origin → AccountId → Call
unfolding has_auth forget mark_with_event
mark_black origin account_id = do
  who ← ensure_signed origin
  ensure (← pallet (has_auth who Auth.mark)) "no mark auth"
  list ← take_pending_deposits account_id
  forget list
  mark_with_event account_id BlackOrWhite.black

module _ (t : Trait Bridge) where
  unfoldable pub simple_deposit_with_event : AccountId → Balance → TxHash → Call
  simple_deposit_with_event account_id amount tx_hash = do
    set_history tx_hash (some (record { account_id = account_id; tx_hash = none; amount = amount }))
    asset_id ← pallet (λ b. b.asset_id)
    Calls.mint t root_origin asset_id account_id amount
    deposit_event (Event.deposited account_id amount tx_hash)

  unfoldable pub deposit : Origin → AccountId → Balance → TxHash → Call
  unfolding is_tx_seen has_auth must_check hold_deposit_with_event simple_deposit_with_event
  deposit origin account_id amount tx_hash = do
    ensure (not (← pallet (is_tx_seen tx_hash))) "repeated transaction"
    who ← ensure_signed origin
    ensure (← pallet (has_auth who Auth.deposit)) "no deposit auth"
    threshold ← pallet (λ b. b.threshold)
    check ← pallet (must_check account_id)
    if leb threshold amount && check
        then hold_deposit_with_event account_id amount tx_hash
        else simple_deposit_with_event account_id amount tx_hash

  -- The `while` loop of `mark_white`: a deposit that fails puts the rest of the list back.
  unfoldable pub release : AccountId → List Deposit → Call
  release account_id [] = pure tt
  release account_id (d ∷ rest) = do
    tx_hash ← expect d.tx_hash
    or_else (simple_deposit_with_event d.account_id d.amount tx_hash) λ e. do
      on_pallet (
          modify λ b. record b {
            pending_deposit_list = update b.pending_deposit_list account_id (d ∷ rest);
          })
      fail e
    release account_id rest

  unfoldable pub mark_white : Origin → AccountId → Call
  unfolding has_auth mark_with_event
  mark_white origin account_id = do
    who ← ensure_signed origin
    ensure (← pallet (has_auth who Auth.mark)) "no mark auth"
    list ← take_pending_deposits account_id
    release account_id list
    mark_with_event account_id BlackOrWhite.white
