-- ===== src/Runtime/Calls.antt =====
-- The `Call` of the runtime (runtime/src/lib.rs, `construct_runtime!`), and what happens in blocks:
-- a height is entered, transactions are charged, calls are dispatched, blocks are finalized.
use riochain.Prelude.{ℕ, List, [], ◌∷◌}
use riochain.Prelude.Outcome.{ok, err, panic, Action, pure, ignore, ◌>>◌}
use riochain.Assets.Types.{AccountId, Balance}
use riochain.Assets.Calls.{Chain, Origin}
use riochain.Assets.Runs
use riochain.Assets.Currency.{rfuel_provider}
use riochain.Price
use riochain.Price.{Price, Prices}
use riochain.Oracle.{Oracle}
use riochain.Bridge.Types.{Bridge}
use riochain.Bridge.Dispatch
use riochain.Bridge.Dispatch.{BridgeCall}
use riochain.Fee
use riochain.Fee.{Fee}
use riochain.Payment
use riochain.Payment.{DispatchInfo}
use riochain.Runtime.Types.{Framework, Runtime, assets_trait, oracle, on_change, payment, on_chain}

-- The calls of the pallets of this repository. `RioOracle` and `RioTransactionPayment` have none.
pub data RuntimeCall : Type 0 where
  rio_assets : Runs.Call → RuntimeCall
  rio_fee_set_account : AccountId → RuntimeCall
  rio_price_report : Price → RuntimeCall
  rio_bridge : BridgeCall → RuntimeCall

module _ {M A : Type 0} where
  -- RioAssets beside no other pallet: its hooks reach none.
  abbrev pub on_rio_assets : Action (Chain Unit) A → Action (Runtime M) A
  on_rio_assets = on_chain (λ r. tt) (λ _ r. r)

  abbrev pub on_rio_fee : Action (Chain Fee) A → Action (Runtime M) A
  on_rio_fee = on_chain (λ r. r.rio_fee) (λ f r. record r { rio_fee = f })

  abbrev pub on_rio_bridge : Action (Chain Bridge) A → Action (Runtime M) A
  on_rio_bridge = on_chain (λ r. r.rio_bridge) (λ b r. record r { rio_bridge = b })

  abbrev pub on_rio_price : Action (Prices Oracle) A → Action (Runtime M) A
  on_rio_price m r = elim (m r.rio_price) [
    | ok a p ↦ ok a (record r { rio_price = p })
    | err e p ↦ err e (record r { rio_price = p })
    | panic ↦ panic
  ]

-- What happens to the storage. The key of the sudo pallet, which is not of this repository, may
-- be set anew; that pallet and the utility pallet dispatch calls too, by origins of their own.
pub data Step : Type 0 where
  initialized : ℕ → Step
  charged : AccountId → DispatchInfo → ℕ → Balance → Step
  dispatched : Origin → RuntimeCall → Step
  rekeyed : AccountId → Step
  finalized : ℕ → Step

module _ {M : Type 0} (framework : Framework M) where
  unfoldable pub dispatch : Origin → RuntimeCall → Action (Runtime M) Unit
  dispatch origin (rio_assets call) r = on_rio_assets (Runs.dispatch (assets_trait r) origin call) r
  dispatch origin (rio_fee_set_account who) r = on_rio_fee (Fee.set_account origin who) r
  dispatch origin (rio_price_report price) r =
      on_rio_price (Price.report (oracle r) on_change (framework.ensure_member origin) price) r
  dispatch origin (rio_bridge call) r =
      on_rio_bridge (Dispatch.dispatch (assets_trait r) origin call) r

  -- `ChargeTransactionPayment` of `SignedExtra`
  unfoldable pub charge : AccountId → DispatchInfo → ℕ → Balance → Action (Runtime M) ℕ
  charge who info len tip r =
      on_rio_fee
        (Payment.validate (payment framework) r.next_fee_multiplier rfuel_provider who info len tip)
        r

  -- The `on_finalize` of RioTransactionPayment and of RioPrice, neither of which reads the other's.
  unfoldable pub on_finalize : ℕ → Action (Runtime M) Unit
  on_finalize current_weight r =
      let updated = record r {
        next_fee_multiplier =
            Payment.on_finalize (payment framework) r.next_fee_multiplier current_weight;
      } in
      on_rio_price (Price.on_finalize (oracle r) on_change) updated

  unfoldable pub step : Step → Action (Runtime M) Unit
  unfolding dispatch charge on_finalize
  step (initialized height) r = ok tt (record r { block_number = height })
  step (charged who info len tip) r = (charge who info len tip >> pure tt) r
  step (dispatched origin call) r = dispatch origin call r
  step (rekeyed key) r = ok tt (record r { sudo_key = key })
  step (finalized current_weight) r = on_finalize current_weight r

  -- Each step runs after the one before it, whether that returned or failed.
  unfoldable pub run : List Step → Action (Runtime M) Unit
  unfolding step
  run [] = pure tt
  run (s ∷ rest) = do ignore (step s); run rest
