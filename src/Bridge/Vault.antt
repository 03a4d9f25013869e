-- ===== src/Bridge/Vault.antt =====
-- The vault holds what the pending withdrawals are owed.
use riochain.Prelude.{
  ◌+◌, ◌≤◌, ◌≡◌, ◌≢◌, ◌⊎◌, refl, true, false, Option, none, some, List, [], ◌∷◌, ◌++◌, arith,
  length, contains, IsDistinct, sum_of, ltb,
}
use riochain.Prelude.Words.{wrapping_sub}
use riochain.Prelude.Maps.{update, get_or, exists, sum_of-update, le-sum_of}
use riochain.Prelude.Outcome.{Returns, Leaves}
use riochain.Assets.Types.{AccountId, Balance, transferable}
use riochain.Assets.Module.{make_transfer_with_event}
use riochain.Assets.Supply.{IsBacked}
use riochain.Assets.Calls.{Chain, Origin, signed_by}
use riochain.Bridge.Types.{Auth, Bridge}
use riochain.Bridge.Module.{has_auth, pendings, remove_one, withdraw, withdraw_finish, refund}

abbrev pub sum : List Balance → Balance
sum [] = 0
sum (x ∷ xs) = x + sum xs

-- What an account is owed.
abbrev pub owed : (AccountId → Option (List Balance)) → AccountId → Balance
owed pw who = sum (get_or [] (pw who))

sum-append : (xs : List Balance) (y : Balance) → sum (xs ++ y ∷ []) ≡ sum xs + y
sum-append [] y = omega arith
sum-append (x ∷ xs) y = omega (arith, sum-append xs y)

sum-remove_one :
    (y : Balance) (xs : List Balance) → contains xs y ≡ true → sum (remove_one y xs) + y ≡ sum xs
unfolding remove_one
sum-remove_one y [] m = cc
sum-remove_one y (x ∷ xs) m = ground (arith, sum-remove_one y xs)

-- A list of one entry that contains `y` sums to it.
sum_single :
    (y : Balance) (xs : List Balance)
    → contains xs y ≡ true
    → ltb 1 (length xs) ≡ false
    → sum xs ≡ y
sum_single y [] m short = cc
sum_single y (x ∷ []) m short = ground arith
sum_single y (x ∷ z ∷ xs) m short = ground arith

sum_of-owed_other :
    (pw : AccountId → Option (List Balance)) (who : AccountId) (v : Option (List Balance))
    (xs : List AccountId)
    → contains xs who ≡ false
    → sum_of (owed (update pw who v)) xs ≡ sum_of (owed pw) xs
sum_of-owed_other pw who v [] m = refl
sum_of-owed_other pw who v (x ∷ xs) m = ground (arith, sum_of-owed_other pw who v xs)

sum_of-owed :
    (pw : AccountId → Option (List Balance)) (who : AccountId) (v : Option (List Balance))
    (xs : List AccountId)
    → IsDistinct xs
    → contains xs who ≡ true
    → sum_of (owed (update pw who v)) xs + owed pw who ≡ sum_of (owed pw) xs + sum (get_or [] v)
sum_of-owed pw who v [] d m = cc
sum_of-owed pw who v (x ∷ xs) d m =
    ground (arith, sum_of-owed pw who v xs, sum_of-owed_other pw who v xs)

-- The vault's balance covers all that the listed accounts are owed.
abbrev pub IsCovered : List AccountId → Chain Bridge → Type 0
IsCovered accounts c =
    let b = c.pallet in
    sum_of (owed b.pending_withdraws) accounts
    ≤ c.assets.free_balance b.asset_id b.pending_withdraw_vault

module _ (accounts : List AccountId) (distinct : IsDistinct accounts) (c : Chain Bridge) where
  -- A withdrawal keeps the vault covered, whatever its result, if the account is not the vault
  -- itself and the asset is backed by the listed accounts.
  -- The listed accounts are distinct, and the account and the vault are among them.
  pub withdraw-IsCovered :
      (origin : Origin) (who : AccountId) (amount : Balance)
      → contains accounts who ≡ true
      → contains accounts c.pallet.pending_withdraw_vault ≡ true
      → who ≢ c.pallet.pending_withdraw_vault
      → IsBacked accounts c.pallet.asset_id c.assets
      → IsCovered accounts c
      → Leaves (withdraw origin who amount c) (IsCovered accounts)
  unfolding withdraw make_transfer_with_event
  withdraw-IsCovered origin who amount hw hv ne backed h =
      let b = c.pallet in
      let free = c.assets.free_balance b.asset_id in
      ground (
        arith,
        sum_of-owed b.pending_withdraws who (some (pendings who b ++ amount ∷ [])) accounts distinct
            hw,
        sum-append (pendings who b) amount,
        sum_of-update free who (wrapping_sub (free who) amount) accounts distinct hw,
        le-sum_of (update free who (wrapping_sub (free who) amount)) b.pending_withdraw_vault
            accounts hv,
      )

  -- Finishing a withdrawal keeps the vault covered, whatever the call's result and its origin, for a
  -- listed account: the debt falls, and no balance changes.
  pub withdraw_finish-IsCovered :
      (origin : Origin) (who : AccountId) (amount : Balance)
      → contains accounts who ≡ true
      → IsCovered accounts c
      → Leaves (withdraw_finish origin who amount c) (IsCovered accounts)
  unfolding withdraw_finish
  withdraw_finish-IsCovered origin who amount hw h =
      let b = c.pallet in
      let list = pendings who b in
      ground (
        arith,
        sum_of-owed b.pending_withdraws who (some (remove_one amount list)) accounts distinct hw,
        sum_of-owed b.pending_withdraws who none accounts distinct hw,
        sum-remove_one amount list,
        sum_single amount list,
      )

  -- A refund keeps the vault covered, whatever the call's result and its origin, if the account and
  -- the vault are listed and the asset is backed by the listed accounts.
  pub refund-IsCovered :
      (origin : Origin) (who : AccountId) (amount : Balance)
      → contains accounts who ≡ true
      → contains accounts c.pallet.pending_withdraw_vault ≡ true
      → IsBacked accounts c.pallet.asset_id c.assets
      → IsCovered accounts c
      → Leaves (refund origin who amount c) (IsCovered accounts)
  unfolding refund make_transfer_with_event
  refund-IsCovered origin who amount hw hv backed h =
      let b = c.pallet in
      let list = pendings who b in
      let free = c.assets.free_balance b.asset_id in
      ground (
        arith,
        sum_of-owed b.pending_withdraws who (some (remove_one amount list)) accounts distinct hw,
        sum_of-owed b.pending_withdraws who none accounts distinct hw,
        sum-remove_one amount list,
        sum_single amount list,
        le-sum_of free b.pending_withdraw_vault accounts hv,
      )

  -- Where the vault is covered, an admin with the refund right can give back any pending
  -- withdrawal: the call succeeds if the asset exists and may be transferred, the account's debt
  -- falls by the amount, and the account has it, unless the account is the vault itself. The listed
  -- accounts are distinct and back the asset, and the account and the vault are among them.
  pub refund_succeeds :
      (author who : AccountId) (amount : Balance)
      → has_auth author Auth.refund c.pallet ≡ true
      → contains (pendings who c.pallet) amount ≡ true
      → exists (c.assets.symbols c.pallet.asset_id) ≡ true
      → c.assets.restrictions c.pallet.asset_id transferable ≡ false
      → contains accounts who ≡ true
      → contains accounts c.pallet.pending_withdraw_vault ≡ true
      → IsBacked accounts c.pallet.asset_id c.assets
      → IsCovered accounts c
      → Returns (refund (signed_by author) who amount c) λ _ c'.
        (owed c'.pallet.pending_withdraws who + amount ≡ owed c.pallet.pending_withdraws who)
        × ((who ≡ c.pallet.pending_withdraw_vault)
            ⊎ (c'.assets.free_balance c.pallet.asset_id who
                ≡ c.assets.free_balance c.pallet.asset_id who + amount))
  unfolding refund make_transfer_with_event
  refund_succeeds author who amount auth waiting known free hw hv backed h =
      let b = c.pallet in
      let list = pendings who b in
      let balance = c.assets.free_balance b.asset_id in
      let vault = b.pending_withdraw_vault in
      let paid = update balance vault (wrapping_sub (balance vault) amount) in
      ground (
        arith,
        sum-remove_one amount list,
        sum_single amount list,
        le-sum_of (owed b.pending_withdraws) who accounts hw,
        sum_of-update balance vault (wrapping_sub (balance vault) amount) accounts distinct hv,
        le-sum_of paid who accounts hw,
        le-sum_of balance vault accounts hv,
      )
