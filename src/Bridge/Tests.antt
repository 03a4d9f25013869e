-- ===== src/Bridge/Tests.antt =====
-- The theorems on `rio-bridge` at a small state: SBTC is asset 0, the root key 9, the admin 5, the
-- vault 7; account 1 waits for two withdrawals, and for the release of two deposits.
use riochain.Prelude.{
  ◌+◌, ◌≡◌, refl, ◌⊎◌, none, some, List, [], ◌∷◌, arith, ◌==◌, if◌then◌else◌, true, false, inl,
}
use riochain.Prelude.Outcome.{err, Returns, Leaves}
use riochain.Assets.Types.{AccountId, PermissionType, Assets, v1}
use riochain.Assets.Module.{check_permission, mint_free}
use riochain.Assets.Calls.{Origin, Chain, root_origin, signed_by, no_hooks, owned_by}
use riochain.Bridge.Types.{Auth, Bridge}
use riochain.Bridge.Module.{is_tx_seen, has_auth, must_check, deposit, refund, mark_white}
use riochain.Bridge.Dispatch.{BridgeCall, run}
use riochain.Bridge.Deposits.{Lost, deposit_once, deposit-Lost}
use riochain.Bridge.Release.{mark_white_releases}
use riochain.Bridge.Runs.{
  asked, finished, refunded, Booking, book_all, IsSolvent, book_all-IsSolvent,
}
use riochain.Bridge.Vault.{owed, refund_succeeds}

abbrev accounts : List AccountId
accounts = 1 ∷ 7 ∷ 9 ∷ []

abbrev assets : Assets
assets = record {
  total_issuance = λ a. if a == 0 then 100 else 0;
  free_balance =
      λ a who. if a == 0 then (if who == 1 then 70 else if who == 7 then 30 else 0) else 0;
  reserved_balance = λ a who. 0;
  permissions = λ a. v1 (owned_by 9);
  restrictions = λ a r. false;
  symbols = λ a. if a == 0 then some [] else none;
  from_id = none;
  to_id = none;
  events = [];
}

abbrev bridge : Bridge
bridge = record {
  asset_id = 0;
  paused = false;
  list = λ a. none;
  threshold = 50;
  admins = λ a. if a == 5 then some Auth.all else none;
  pending_deposit_list = λ a.
      if a == 1
      then record { account_id = 1; tx_hash = some 11; amount = 60 }
        ∷ record { account_id = 1; tx_hash = some 12; amount = 80 }
        ∷ []
      else [];
  deposit_history = λ tx. none;
  pending_withdraws = λ a. if a == 1 then some (10 ∷ 20 ∷ []) else none;
  pending_withdraw_vault = 7;
  events = [];
}

abbrev start : Chain Bridge
start = record { assets = assets; pallet = bridge }

-- The same with an asset that does not exist, so that minting fails.
abbrev no_asset : Chain Bridge
no_asset = record { assets = assets; pallet = record bridge { asset_id = 3 } }

unseen : is_tx_seen 42 bridge ≡ false
unfolding is_tx_seen
unseen = refl

may_deposit : has_auth 5 Auth.deposit bridge ≡ true
unfolding has_auth
may_deposit = refl

may_refund : has_auth 5 Auth.refund bridge ≡ true
unfolding has_auth
may_refund = refl

may_mark : has_auth 5 Auth.mark bridge ≡ true
unfolding has_auth
may_mark = refl

may_mint : check_permission 0 9 PermissionType.mint assets ≡ true
unfolding check_permission
may_mint = refl

is_unchecked : must_check 1 bridge ≡ true
unfolding must_check
is_unchecked = refl

unknown_asset : mint_free 3 9 1 40 assets ≡ err "AssetId is not exist." assets
unfolding mint_free
unknown_asset = refl

-- Meanwhile account 1 is marked white, which releases its deposits, and the admin leaves.
abbrev meanwhile : List (Origin × BridgeCall)
meanwhile =
    (signed_by 5, BridgeCall.mark_white 1)
    ∷ (signed_by 5, BridgeCall.deposit 2 60 13)
    ∷ (signed_by 6, BridgeCall.refund 1 10)
    ∷ (root_origin, BridgeCall.delete_admin 5)
    ∷ []

deposit_once_example : Leaves (deposit (no_hooks 9) (signed_by 5) 1 40 42 start) λ c'.
    let after = run (no_hooks 9) meanwhile c' in
    deposit (no_hooks 9) (signed_by 6) 2 7 42 after ≡ err "repeated transaction" after
deposit_once_example =
    deposit_once 9 start 5 1 40 42 meanwhile (signed_by 6) 2 7 unseen may_deposit
      (refl, (refl, (refl, (refl, tt))))

deposit-Lost_example : Lost (deposit (no_hooks 9) (signed_by 5) 1 40 42 no_asset) 42 no_asset
unfolding is_tx_seen has_auth
deposit-Lost_example =
    deposit-Lost 9 no_asset 5 1 40 42 "AssetId is not exist." refl refl (inl (ground arith))
      unknown_asset

mark_white_releases_example : Returns (mark_white (no_hooks 9) (signed_by 5) 1 start) λ _ c'.
    (c'.assets.total_issuance 0 ≡ 100 + 140)
    × (c'.assets.free_balance 0 1 ≡ 70 + 140)
    × (c'.pallet.pending_deposit_list 1 ≡ [])
    × (must_check 1 c'.pallet ≡ false)
mark_white_releases_example =
    mark_white_releases 9 1 5 start may_mark (ground arith)
      (refl, may_mint, ground arith, ground arith)

abbrev bookings : List (Origin × Booking)
bookings =
    (signed_by 5, asked 1 25)
    ∷ (signed_by 5, finished 1 20)
    ∷ (signed_by 6, refunded 1 10)
    ∷ (signed_by 5, refunded 1 10)
    ∷ []

book_all-IsSolvent_example : Returns (book_all bookings start) (λ _. IsSolvent accounts 7 0)
book_all-IsSolvent_example =
    book_all-IsSolvent accounts (ground arith) 7 0 bookings start (ground arith)
      (
        (ground arith, ground arith),
        (
          (ground arith, ground arith),
          ((ground arith, ground arith), ((ground arith, ground arith), tt)),
        ),
      )
      (ground arith, ground arith, refl, refl)

refund_succeeds_example : Returns (refund (signed_by 5) 1 20 start) λ _ c'.
    (owed c'.pallet.pending_withdraws 1 + 20 ≡ 30)
    × ((◌≡◌ {A = AccountId} 1 7) ⊎ (c'.assets.free_balance 0 1 ≡ 70 + 20))
refund_succeeds_example =
    refund_succeeds accounts (ground arith) start 5 1 20 may_refund (ground arith) (ground arith)
      (ground arith) (ground arith) (ground arith) (ground arith) (ground arith)
