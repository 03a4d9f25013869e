-- ===== src/Assets/Module.antt =====
-- `impl Module` of rio-assets/src/lib.rs: the operations on balances that check no origin.
use riochain.Prelude.{
  ℕ, ◌-◌, Bool, true, false, Option, some, List, not, ltb, ◌==◌, if◌then◌else◌, min,
}
use riochain.Prelude.Words.{wrapping_add, wrapping_sub, checked_add, checked_sub}
use riochain.Prelude.Maps.{update, update_at, exists, get_or}
use riochain.Prelude.Outcome.{Action, pure, fail, gets, some_or, modify, ensure, ◌>>=◌, ◌>>◌}
use riochain.Assets.Types.{
  AccountId, AssetId, Balance, Owner, PermissionsV1, v1, into_latest, PermissionType, Restriction,
  transferable, AssetOptions, Event, WithdrawReason, WithdrawReasons, Assets, deposit_event,
}

abbrev pub only : WithdrawReason → WithdrawReasons
only WithdrawReason.transfer WithdrawReason.transfer = true
only WithdrawReason.transaction_payment WithdrawReason.transaction_payment = true
only WithdrawReason.tip WithdrawReason.tip = true
only _ _ = false

unfoldable pub asset_exists : AssetId → Assets → Bool
asset_exists asset_id s = exists (s.symbols asset_id)

unfoldable pub should_not_exist : AssetId → Action Assets Unit
should_not_exist asset_id s = ensure (not (exists (s.symbols asset_id))) "AssetId is exist." s

unfoldable pub should_exist : AssetId → Action Assets Unit
should_exist asset_id s = ensure (exists (s.symbols asset_id)) "AssetId is not exist." s

-- `set_free_balance` and `set_reserved_balance`
abbrev pub set_free_balance : AssetId → AccountId → Balance → Action Assets Unit
set_free_balance asset_id who balance =
    modify (λ s. record s { free_balance = update_at s.free_balance asset_id who balance })

abbrev pub set_reserved_balance : AssetId → AccountId → Balance → Action Assets Unit
set_reserved_balance asset_id who balance =
    modify (λ s. record s { reserved_balance = update_at s.reserved_balance asset_id who balance })

abbrev pub set_total_issuance : AssetId → Balance → Action Assets Unit
set_total_issuance asset_id total =
    modify (λ s. record s { total_issuance = update s.total_issuance asset_id total })

-- `from_account.unwrap_or_default()`: the default account is 0.
unfoldable pub create_asset :
    AssetId → List ℕ → Option AccountId → AssetOptions → Action Assets Unit
unfolding should_not_exist
create_asset asset_id symbol from_account options = do
  should_not_exist asset_id
  let account_id = get_or 0 from_account
  set_total_issuance asset_id options.initial_issuance
  set_free_balance asset_id account_id options.initial_issuance
  modify (λ s. record s { permissions = update s.permissions asset_id (v1 options.permissions) })
  modify (λ s. record s { symbols = update s.symbols asset_id (some symbol) })
  deposit_event (Event.created asset_id account_id options)

abbrev owns : Owner → AccountId → Bool
owns Owner.none who = false
owns (Owner.address account) who = account == who

abbrev granted : PermissionType → PermissionsV1 → Owner
granted PermissionType.burn p = p.burn
granted PermissionType.mint p = p.mint
granted PermissionType.update p = p.update

unfoldable pub check_permission : AssetId → AccountId → PermissionType → Assets → Bool
check_permission asset_id who what s =
    owns (granted what (into_latest (s.permissions asset_id))) who

-- permissions.rs
unfoldable pub can_do : AssetId → Restriction → Action Assets Unit
can_do asset_id restriction s =
    ensure (not (s.restrictions asset_id restriction)) "The asset is restricted for this action." s

unfoldable pub ensure_can_withdraw :
    AssetId → AccountId → Balance → WithdrawReasons → Balance → Action Assets Unit
unfolding can_do
ensure_can_withdraw asset_id who amount reasons new_balance =
    if reasons WithdrawReason.transfer then can_do asset_id transferable else pure tt

unfoldable pub make_transfer : AssetId → AccountId → AccountId → Balance → Action Assets Unit
unfolding should_exist ensure_can_withdraw checked_sub wrapping_sub wrapping_add
make_transfer asset_id from to amount = do
  should_exist asset_id
  free ← gets (λ s. s.free_balance asset_id from)
  new_balance ← some_or (checked_sub free amount) "balance too low to send amount"
  ensure_can_withdraw asset_id from amount (only WithdrawReason.transfer) new_balance
  if from == to then pure tt else do
    balance ← gets (λ s. s.free_balance asset_id from)
    set_free_balance asset_id from (wrapping_sub balance amount)
    balance ← gets (λ s. s.free_balance asset_id to)
    set_free_balance asset_id to (wrapping_add balance amount)

unfoldable pub make_transfer_with_event :
    AssetId → AccountId → AccountId → Balance → Action Assets Unit
unfolding make_transfer
make_transfer_with_event asset_id from to amount = do
  make_transfer asset_id from to amount
  if from == to then pure tt else deposit_event (Event.transferred asset_id from to amount)

unfoldable pub mint_free : AssetId → AccountId → AccountId → Balance → Action Assets Unit
unfolding should_exist check_permission checked_add
mint_free asset_id who to amount = do
  should_exist asset_id
  allowed ← gets (check_permission asset_id who PermissionType.mint)
  if not allowed then fail "The origin does not have permission to mint an asset." else do
    original ← gets (λ s. s.free_balance asset_id to)
    current ← gets (λ s. s.total_issuance asset_id)
    total ← some_or (checked_add current amount) "total_issuance got overflow after minting."
    value ← some_or (checked_add original amount) "free balance got overflow after minting."
    set_total_issuance asset_id total
    set_free_balance asset_id to value

unfoldable pub burn_free : AssetId → AccountId → AccountId → Balance → Action Assets Unit
unfolding should_exist check_permission checked_sub
burn_free asset_id who to amount = do
  should_exist asset_id
  allowed ← gets (check_permission asset_id who PermissionType.burn)
  if not allowed then fail "The origin does not have permission to burn an asset." else do
    original ← gets (λ s. s.free_balance asset_id to)
    current ← gets (λ s. s.total_issuance asset_id)
    total ← some_or (checked_sub current amount) "total_issuance got underflow after burning"
    value ← some_or (checked_sub original amount) "free_balance got underflow after burning"
    set_total_issuance asset_id total
    set_free_balance asset_id to value

unfoldable pub reserve : AssetId → AccountId → Balance → Action Assets Unit
unfolding wrapping_add
reserve asset_id who amount = do
  original_reserve ← gets (λ s. s.reserved_balance asset_id who)
  original_free ← gets (λ s. s.free_balance asset_id who)
  if ltb original_free amount then fail "not enough free funds" else do
    set_reserved_balance asset_id who (wrapping_add original_reserve amount)
    set_free_balance asset_id who (original_free - amount)

-- It cannot fail; the result is the part of `amount` that was not moved.
unfoldable pub unreserve : AssetId → AccountId → Balance → Action Assets Balance
unfolding wrapping_add
unreserve asset_id who amount = do
  b ← gets (λ s. s.reserved_balance asset_id who)
  let actual = min b amount
  original_free ← gets (λ s. s.free_balance asset_id who)
  set_free_balance asset_id who (wrapping_add original_free actual)
  set_reserved_balance asset_id who (b - actual)
  pure (amount - actual)
