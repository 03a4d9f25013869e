-- ===== src/Assets/Currency.antt =====
-- currency.rs: one asset as a `Currency`, for the asset that a provider names, and the transfer
-- between two assets of lib.rs, which is built on it.
use riochain.Prelude.{◌-◌, Bool, none, some, not, leb, ◌==◌, ◌&&◌, ◌⊎◌, inl, inr, if◌then◌else◌}
use riochain.Prelude.Words.{u128_mod, wrapping_add, checked_add, checked_sub}
use riochain.Prelude.Maps.{get_or}
use riochain.Prelude.Outcome.{Action, pure, abort, gets, some_or, expect, modify, ◌>>=◌, ◌>>◌}
use riochain.Assets.Types.{
  AccountId, AssetId, Balance, WithdrawReasons, Assets, rfuel, locked_rfuel,
}
use riochain.Assets.Module.{
  set_free_balance, set_total_issuance, should_exist, ensure_can_withdraw, make_transfer,
}
use riochain.Assets.Imbalances.Positive
use riochain.Assets.Imbalances.Negative
use riochain.Assets.Imbalances.{PositiveImbalance, NegativeImbalance}

-- `AssetIdProvider::asset_id()`; two providers read it from storage and may panic.
abbrev pub Provider : Type 0
Provider = Action Assets AssetId

abbrev pub rfuel_provider : Provider
rfuel_provider = pure rfuel

abbrev pub locked_rfuel_provider : Provider
locked_rfuel_provider = pure locked_rfuel

abbrev pub from_provider : Provider
from_provider = do id ← gets (λ s. s.from_id); expect id

abbrev pub to_provider : Provider
to_provider = do id ← gets (λ s. s.to_id); expect id

module _ (provider : Provider) where
  unfoldable pub free_balance : AccountId → Action Assets Balance
  free_balance who = do asset_id ← provider; gets (λ s. s.free_balance asset_id who)

  unfoldable pub total_balance : AccountId → Action Assets Balance
  unfolding free_balance
  total_balance who = free_balance who

  unfoldable pub minimum_balance : Balance
  minimum_balance = 0

  unfoldable pub can_slash : AccountId → Balance → Action Assets Bool
  unfolding free_balance
  can_slash who value = do free ← free_balance who; pure (leb value free)

  unfoldable pub total_issuance : Action Assets Balance
  total_issuance = do asset_id ← provider; gets (λ s. s.total_issuance asset_id)

  -- The closure that `mutate` runs returns the new total and does not write it.
  unfoldable pub burn : Balance → Action Assets PositiveImbalance
  unfolding checked_sub
  burn amount = do
    asset_id ← provider
    issued ← gets (λ s. s.total_issuance asset_id)
    pure (Positive.new (elim (checked_sub issued amount) [ none ↦ issued | some _ ↦ amount ]))

  unfoldable pub issue : Balance → Action Assets NegativeImbalance
  unfolding checked_add
  issue amount = do
    asset_id ← provider
    issued ← gets (λ s. s.total_issuance asset_id)
    set_total_issuance asset_id (get_or (u128_mod - 1) (checked_add issued amount))
    pure (
        Negative.new
          (elim (checked_add issued amount) [ none ↦ u128_mod - 1 - issued | some _ ↦ amount ]))

  unfoldable pub transfer : AccountId → AccountId → Balance → Action Assets Unit
  unfolding make_transfer
  transfer transactor dest value = do
    asset_id ← provider
    make_transfer asset_id transactor dest value

  -- `SignedImbalance` is the sum of the two tokens.
  unfoldable pub make_free_balance_be :
      AccountId → Balance → Action Assets (PositiveImbalance ⊎ NegativeImbalance)
  make_free_balance_be who balance = do
    asset_id ← provider
    original ← gets (λ s. s.free_balance asset_id who)
    set_free_balance asset_id who balance
    pure (
        if leb original balance
        then inl (Positive.new (balance - original))
        else inr (Negative.new (original - balance)))

  -- The negative token that the branch `else` forgets is dropped at the end of the call, and so is
  -- the zero token of no effect.
  unfoldable pub deposit_creating : AccountId → Balance → Action Assets PositiveImbalance
  unfolding free_balance make_free_balance_be wrapping_add Negative.drop
  deposit_creating who value = do
    free ← free_balance who
    imbalance ← make_free_balance_be who (wrapping_add free value)
    elim imbalance [
      | inl p ↦ pure p
      | inr n ↦ do asset_id ← provider; Negative.drop asset_id n; pure (Positive.new 0)
    ]

  -- It always returns `Ok`.
  unfoldable pub deposit_into_existing : AccountId → Balance → Action Assets PositiveImbalance
  unfolding deposit_creating
  deposit_into_existing who value = deposit_creating who value

  unfoldable pub withdraw : AccountId → Balance → WithdrawReasons → Action Assets NegativeImbalance
  unfolding free_balance checked_sub ensure_can_withdraw
  withdraw who value reasons = do
    free ← free_balance who
    new_balance ← some_or (checked_sub free value) "account has too few funds"
    asset_id ← provider
    ensure_can_withdraw asset_id who value reasons new_balance
    set_free_balance asset_id who new_balance
    pure (Negative.new value)

-- `slash` is `unimplemented!`.
unfoldable pub slash : AccountId → Balance → Action Assets (NegativeImbalance × Balance)
slash who value = abort

-- `FromToContext::new`. It returns `()`, so the caller binds no guard and nothing clears the ids.
unfoldable pub from_to_context : AssetId → AssetId → Action Assets Unit
from_to_context from to = modify (λ s. record s { from_id = some from; to_id = some to })

-- The inner block of `make_transfer_between_assets`: the tokens are dropped last to first.
unfoldable pub exchange :
    AssetId → AccountId → AssetId → AccountId → WithdrawReasons → Balance → Action Assets Unit
unfolding from_to_context withdraw deposit_creating Positive.drop Negative.drop
exchange from_asset_id from to_asset_id to reasons amount = do
  from_to_context from_asset_id to_asset_id
  nag ← withdraw from_provider from amount reasons
  pos ← deposit_creating to_provider to amount
  if not (nag.amount == pos.amount) then abort else do
    to_id ← to_provider
    Positive.drop to_id pos
    from_id ← from_provider
    Negative.drop from_id nag

unfoldable pub make_transfer_between_assets :
    AssetId → AccountId → AssetId → AccountId → WithdrawReasons → Balance → Action Assets Unit
unfolding should_exist ensure_can_withdraw checked_add checked_sub
make_transfer_between_assets from_asset_id from to_asset_id to reasons amount = do
  should_exist from_asset_id
  should_exist to_asset_id
  free ← gets (λ s. s.free_balance from_asset_id from)
  new_balance ← some_or (checked_sub free amount) "balance too low to send amount"
  to_free ← gets (λ s. s.free_balance to_asset_id to)
  to_balance ← some_or (checked_add to_free amount) "balance too height to receive amount"
  ensure_can_withdraw from_asset_id from amount reasons new_balance
  if from == to && from_asset_id == to_asset_id
      then pure tt
      else exchange from_asset_id from to_asset_id to reasons amount
