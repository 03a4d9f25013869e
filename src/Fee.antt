-- ===== src/Fee.antt =====
-- The pallet `rio-fee` (modules/rio-fee/src/lib.rs): it collects the fees on one account, and buys
-- the fee asset with the locked one. `FeeExchange` is the type of primitives/src/types.rs.
pub mod Charge
use riochain.Prelude.{ℕ, List, ◌∷◌, min, Bool, true, false}
use riochain.Prelude.Outcome.{Action, pure, gets, modify, ◌>>=◌, ◌>>◌}
use riochain.Assets.Types.{AccountId, Balance, WithdrawReason, WithdrawReasons, rfuel, locked_rfuel}
use riochain.Assets.Imbalances.{NegativeImbalance}
use riochain.Assets.Imbalances.Positive
use riochain.Assets.Imbalances.Negative
use riochain.Assets.Currency.{Provider, deposit_creating, make_transfer_between_assets}
use riochain.Assets.Calls.{Chain, on_assets, on_pallet, Origin, ensure_root}

pub data Event : Type 0 where
  account_changed : AccountId → Event
  fee_deposit : Balance → Event

-- The storage, with the events that the pallet has deposited, the newest first.
pub record Fee : Type 0 where
  pub account_id : AccountId
  pub events : List Event

pub data FeeExchange : Type 0 where
  v1 : Balance → FeeExchange

abbrev pub max_payment : FeeExchange → Balance
max_payment (v1 balance) = balance

abbrev deposit_event : Event → Action (Chain Fee) Unit
deposit_event e = on_pallet (modify λ f. record f { events = e ∷ f.events })

unfoldable pub set_account : Origin → AccountId → Action (Chain Fee) Unit
set_account origin who = do
  ensure_root origin
  on_pallet (modify λ f. record f { account_id = who })
  deposit_event (Event.account_changed who)

-- The token that `deposit_creating` returns is dropped at once, the given one at the end.
unfoldable pub on_nonzero_unbalanced : Provider → NegativeImbalance → Action (Chain Fee) Unit
unfolding deposit_creating Positive.drop Negative.drop
on_nonzero_unbalanced provider amount = do
  account_id ← gets (λ c. c.pallet.account_id)
  on_assets do
    created ← deposit_creating provider account_id amount.amount
    asset_id ← provider
    Positive.drop asset_id created
  deposit_event (Event.fee_deposit amount.amount)
  on_assets do asset_id ← provider; Negative.drop asset_id amount

abbrev pub paying : WithdrawReasons
paying WithdrawReason.transaction_payment = true
paying _ = false

unfoldable pub buy_fee_asset : AccountId → Balance → FeeExchange → Action (Chain Fee) Balance
buy_fee_asset who amount exchange_op = do
  balance ← gets (λ c. c.assets.free_balance locked_rfuel who)
  let bought = min (min amount balance) (max_payment exchange_op)
  on_assets (make_transfer_between_assets locked_rfuel who rfuel who paying bought)
  pure bought
