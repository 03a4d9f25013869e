-- ===== src/Bridge/Release.antt =====
-- Marking an account white credits all that was held for it.
use riochain.Prelude.{
  ◌+◌, ◌<◌, ◌≡◌, refl, true, false, none, some, List, [], ◌∷◌, arith, All, Option-cases, inl, inr,
}
use riochain.Prelude.Words.{u128_mod}
use riochain.Prelude.Maps.{update, update_at, exists}
use riochain.Prelude.Outcome.{ok, Returns}
use riochain.Assets.Types.{AccountId, Balance, Assets, PermissionType}
use riochain.Assets.Types
use riochain.Assets.Module.{check_permission}
use riochain.Assets.Calls
use riochain.Assets.Calls.{Chain, signed_by, no_hooks}
use riochain.Bridge.Types.{TxHash, Auth, Bridge, Deposit, Event}
use riochain.Bridge.Module.{has_auth, must_check, simple_deposit_with_event, release, mark_white}

abbrev pub total_amount : List Deposit → Balance
total_amount [] = 0
total_amount (d ∷ ds) = d.amount + total_amount ds

-- Every entry is for the account, and carries its hash.
abbrev pub IsHeldFor : AccountId → List Deposit → Type 0
IsHeldFor account ds = All (λ d. (d.account_id ≡ account) × (exists d.tx_hash ≡ true)) ds

module _ (root account : AccountId) where
  -- The root key can mint `extra` of the bridge's asset to the account.
  abbrev pub IsMintable : Balance → Chain Bridge → Type 0
  IsMintable extra c =
      (exists (c.assets.symbols c.pallet.asset_id) ≡ true)
      × (check_permission c.pallet.asset_id root PermissionType.mint c.assets ≡ true)
      × (c.assets.total_issuance c.pallet.asset_id + extra < u128_mod)
      × (c.assets.free_balance c.pallet.asset_id account + extra < u128_mod)

  -- The state after one deposit is credited.
  abbrev credited : Balance → TxHash → Chain Bridge → Chain Bridge
  credited amount tx c =
      let id = c.pallet.asset_id in
      let s = c.assets in
      let b = c.pallet in
      record c {
        assets = record s {
          total_issuance = update s.total_issuance id (s.total_issuance id + amount);
          free_balance = update_at s.free_balance id account (s.free_balance id account + amount);
          events = Types.Event.minted id account amount ∷ s.events;
        };
        pallet = record b {
          deposit_history =
              update b.deposit_history tx
                (some (record { account_id = account; tx_hash = none; amount = amount }));
          events = Event.deposited account amount tx ∷ b.events;
        };
      }

  simple_deposit_lem :
      (amount : Balance) (tx : TxHash) (c : Chain Bridge)
      → IsMintable amount c
      → simple_deposit_with_event (no_hooks root) account amount tx c ≡ ok tt (credited amount tx c)
  unfolding simple_deposit_with_event Calls.mint
  simple_deposit_lem amount tx c h = ground arith

  -- What the loop leaves, from the state where it began.
  record IsReleased (sum : Balance) (c c' : Chain Bridge) : Type 0 where
    issued :
        c'.assets.total_issuance c.pallet.asset_id ≡ c.assets.total_issuance c.pallet.asset_id + sum
    received :
        c'.assets.free_balance c.pallet.asset_id account
        ≡ c.assets.free_balance c.pallet.asset_id account + sum
    lists : c'.pallet.pending_deposit_list ≡ c.pallet.pending_deposit_list

  release_all :
      (ds : List Deposit) (c : Chain Bridge)
      → IsHeldFor account ds
      → IsMintable (total_amount ds) c
      → Returns (release (no_hooks root) account ds c) (λ _ c'. IsReleased (total_amount ds) c c')
  unfolding release check_permission
  release_all [] c held h = record { issued = omega arith; received = omega arith; lists = refl }
  release_all (d ∷ ds) c held h = elim (Option-cases d.tx_hash) [
    | inl missing ↦ ground arith
    | inr (tx, e) ↦
        let next = credited d.amount tx c in
        let fits : IsMintable (total_amount ds) next = ground arith in
        ground
          (arith, simple_deposit_lem d.amount tx c (ground arith), release_all ds next held.1 fits)
  ]

  -- Marking an account white credits every deposit that was held for it, in full, and empties the
  -- list: the account and the issuance grow by the sum of the amounts. It needs an admin with the
  -- mark right, entries that are for the account, an asset that exists and that the root key may
  -- mint, and room for the sum. Afterwards the account's deposits are no longer held.
  -- The asset hooks do nothing.
  pub mark_white_releases :
      (admin : AccountId) (c : Chain Bridge)
      → has_auth admin Auth.mark c.pallet ≡ true
      → IsHeldFor account (c.pallet.pending_deposit_list account)
      → IsMintable (total_amount (c.pallet.pending_deposit_list account)) c
      → Returns (mark_white (no_hooks root) (signed_by admin) account c) λ _ c'.
        (c'.assets.total_issuance c.pallet.asset_id
          ≡ c.assets.total_issuance c.pallet.asset_id
            + total_amount (c.pallet.pending_deposit_list account))
        × (c'.assets.free_balance c.pallet.asset_id account
            ≡ c.assets.free_balance c.pallet.asset_id account
              + total_amount (c.pallet.pending_deposit_list account))
        × (c'.pallet.pending_deposit_list account ≡ [])
        × (must_check account c'.pallet ≡ false)
  unfolding mark_white must_check check_permission
  mark_white_releases admin c auth held h =
      let list = c.pallet.pending_deposit_list account in
      let b = c.pallet in
      let taken : Chain Bridge = record c {
        pallet = record b { pending_deposit_list = update b.pending_deposit_list account [] };
      } in
      let fits : IsMintable (total_amount list) taken = ground arith in
      ground (arith, release_all list taken held fits)
