-- ===== src/Bridge/Deposits.antt =====
-- A deposit is credited at most once, and a large one waits for the check of its receiver.
use riochain.Prelude.{
  ◌+◌, ◌≤◌, ◌<◌, ◌≡◌, ◌⊎◌, true, false, some, [], ◌∷◌, ◌++◌, arith, String, List, All,
}
use riochain.Prelude.Words.{u128_mod}
use riochain.Prelude.Maps.{exists}
use riochain.Prelude.Outcome.{Outcome, ok, err, panic, Returns, Leaves, Leaves_imp}
use riochain.Assets.Types.{AccountId, Balance, PermissionType}
use riochain.Assets.Module.{mint_free, check_permission}
use riochain.Assets.Calls
use riochain.Assets.Calls.{Chain, Origin, Trait, signed_by, no_hooks}
use riochain.Bridge.Types.{TxHash, Auth, Bridge, Deposit}
use riochain.Bridge.Module.{is_tx_seen, has_auth, must_check, deposit}
use riochain.Bridge.Dispatch.{BridgeCall, run}
use riochain.Bridge.Seen.{Seen, forgets, run-Seen}

-- The call ended with an error and took the hash, and credited nothing.
abbrev pub Lost : Outcome (Chain Bridge) Unit → TxHash → Chain Bridge → Type 0
Lost (ok _ c') tx c = ⊥
Lost panic tx c = ⊥
Lost (err _ c') tx c =
    (is_tx_seen tx c'.pallet ≡ true)
    × (c'.assets ≡ c.assets)
    × (c'.pallet.pending_deposit_list ≡ c.pallet.pending_deposit_list)

repeated :
    (t : Trait Bridge) (origin : Origin) (account : AccountId) (amount : Balance) (tx : TxHash)
    (c : Chain Bridge)
    → Seen tx c
    → deposit t origin account amount tx c ≡ err "repeated transaction" c
unfolding deposit
repeated t origin account amount tx c seen = ground arith

module _ (root : AccountId) (c : Chain Bridge) where
  deposit-Seen :
      (admin account : AccountId) (amount : Balance) (tx : TxHash)
      → is_tx_seen tx c.pallet ≡ false
      → has_auth admin Auth.deposit c.pallet ≡ true
      → Leaves (deposit (no_hooks root) (signed_by admin) account amount tx c) (Seen tx)
  unfolding deposit Calls.mint
  deposit-Seen admin account amount tx fresh auth = ground arith

  -- Once a deposit of an admin with the deposit right has passed with a hash that was new, the hash
  -- is taken, also where the minting failed: after any further calls, by any origins, failing or
  -- panicking or not, a deposit with the same hash, by anyone, is refused and changes nothing. None
  -- of the calls is `mark_black`, which takes hashes out of the history, and the asset hooks do
  -- nothing.
  pub deposit_once :
      (admin account : AccountId) (amount : Balance) (tx : TxHash)
      (calls : List (Origin × BridgeCall)) (origin : Origin) (account' : AccountId)
      (amount' : Balance)
      → is_tx_seen tx c.pallet ≡ false
      → has_auth admin Auth.deposit c.pallet ≡ true
      → All (λ (e : Origin × BridgeCall). forgets e.1 ≡ false) calls
      → Leaves (deposit (no_hooks root) (signed_by admin) account amount tx c) λ c'.
        let after = run (no_hooks root) calls c' in
        deposit (no_hooks root) origin account' amount' tx after ≡ err "repeated transaction" after
  deposit_once admin account amount tx calls origin account' amount' fresh auth kept =
      Leaves_imp _ (deposit (no_hooks root) (signed_by admin) account amount tx c)
        (deposit-Seen admin account amount tx fresh auth)
        (λ c' seen.
          repeated (no_hooks root) origin account' amount' tx (run (no_hooks root) calls c')
            (run-Seen root tx calls c' kept seen))

  -- A deposit that reaches the threshold, for an account that is not marked white, mints nothing:
  -- it is added to the account's pending deposits, and its hash is taken.
  -- The asset hooks do nothing.
  pub deposit_waits :
      (admin account : AccountId) (amount : Balance) (tx : TxHash)
      → is_tx_seen tx c.pallet ≡ false
      → has_auth admin Auth.deposit c.pallet ≡ true
      → c.pallet.threshold ≤ amount
      → must_check account c.pallet ≡ true
      → Returns (deposit (no_hooks root) (signed_by admin) account amount tx c) λ _ c'.
        let held : Deposit = record { account_id = account; tx_hash = some tx; amount = amount } in
        (c'.assets ≡ c.assets)
        × (c'.pallet.pending_deposit_list account
            ≡ c.pallet.pending_deposit_list account ++ held ∷ [])
        × (is_tx_seen tx c'.pallet ≡ true)
  unfolding deposit
  deposit_waits admin account amount tx fresh auth large check = ground arith

  -- Any other deposit mints its amount to the account, if the asset exists, the root key may mint
  -- it, and the issuance and the balance have room.
  -- The asset hooks do nothing.
  pub deposit_credited :
      (admin account : AccountId) (amount : Balance) (tx : TxHash)
      → is_tx_seen tx c.pallet ≡ false
      → has_auth admin Auth.deposit c.pallet ≡ true
      → (amount < c.pallet.threshold) ⊎ (must_check account c.pallet ≡ false)
      → exists (c.assets.symbols c.pallet.asset_id) ≡ true
      → check_permission c.pallet.asset_id root PermissionType.mint c.assets ≡ true
      → c.assets.total_issuance c.pallet.asset_id + amount < u128_mod
      → c.assets.free_balance c.pallet.asset_id account + amount < u128_mod
      → Returns (deposit (no_hooks root) (signed_by admin) account amount tx c) λ _ c'.
        (c'.assets.free_balance c.pallet.asset_id account
          ≡ c.assets.free_balance c.pallet.asset_id account + amount)
        × (c'.assets.total_issuance c.pallet.asset_id
            ≡ c.assets.total_issuance c.pallet.asset_id + amount)
        × (c'.pallet.pending_deposit_list ≡ c.pallet.pending_deposit_list)
        × (is_tx_seen tx c'.pallet ≡ true)
  unfolding deposit Calls.mint
  deposit_credited admin account amount tx fresh auth small known may_mint room_total room =
      ground arith

  -- A deposit that is not held, as it is below the threshold or its account is marked white, and
  -- whose minting fails takes its hash all the same: the call ends with an error, no asset changes,
  -- nothing new is pending, and the hash is seen. The hash was new, the signer has the deposit
  -- right, minting the amount as root fails and changes nothing, and the asset hooks do nothing.
  pub deposit-Lost :
      (admin account : AccountId) (amount : Balance) (tx : TxHash) (e : String)
      → is_tx_seen tx c.pallet ≡ false
      → has_auth admin Auth.deposit c.pallet ≡ true
      → (amount < c.pallet.threshold) ⊎ (must_check account c.pallet ≡ false)
      → mint_free c.pallet.asset_id root account amount c.assets ≡ err e c.assets
      → Lost (deposit (no_hooks root) (signed_by admin) account amount tx c) tx c
  unfolding deposit Calls.mint
  deposit-Lost admin account amount tx e fresh auth small refused = ground arith
