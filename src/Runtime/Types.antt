-- ===== src/Runtime/Types.antt =====
-- The storage of the runtime's own pallets and their configuration (runtime/src/lib.rs).
use riochain.Prelude.{ℕ, Option}
use riochain.Prelude.Outcome.{Outcome, ok, err, panic, Action, Leaves, Returns}
use riochain.Assets.Types.{AccountId, Balance, Assets}
use riochain.Assets.Calls.{Chain, Origin, Trait, no_hooks}
use riochain.Oracle.{Oracle, OracleMixedIn, mixed_in}
use riochain.Price.{Price, Prices}
use riochain.Bridge.Types.{Bridge}
use riochain.Fee.{Fee}
use riochain.Payment.{Config, DispatchInfo, RuntimeDispatchInfo}
use riochain.Payment
use riochain.Runtime.Constants.{
  maximum_block_weight, transaction_base_fee, transaction_byte_fee, report_inteval,
}

-- What the runtime takes from the framework: the multiplier `M` with its operation and its value
-- at the start, `Fixed64::from_parts(0)`, the two conversions of `()`, and the answer of
-- `EnsureMember`, the member who stands behind an origin.
pub record Framework (M : Type 0) : Type 0 where
  pub unit_weight_to_fee : ℕ → Balance
  pub unit_multiplier_update : ℕ → M → M
  pub saturated_multiply_accumulate : M → Balance → Balance
  pub initial_multiplier : M
  pub ensure_member : Origin → Option AccountId

-- The storage of the pallets of `construct_runtime!` that are of this repository, with the key of
-- the sudo pallet and the height. The storage of RioOracle is the `world` of RioPrice.
pub record Runtime (M : Type 0) : Type 0 where
  pub block_number : ℕ
  pub sudo_key : AccountId
  pub rio_assets : Assets
  pub rio_fee : Fee
  pub next_fee_multiplier : M
  pub rio_price : Prices Oracle
  pub rio_bridge : Bridge

-- `KeyProvider::root_key`
abbrev pub root_key : {M : Type 0} → Runtime M → AccountId
root_key r = r.sudo_key

-- `impl rio_assets::Trait for Runtime`: every hook is `()`.
abbrev pub assets_trait : {M X : Type 0} → Runtime M → Trait X
assets_trait r = no_hooks (root_key r)

-- `impl rio_price::Trait for Runtime`: the oracle is RioOracle, and `OnChange` is `()`.
abbrev pub oracle : {M : Type 0} → Runtime M → OracleMixedIn Oracle
oracle r = mixed_in report_inteval r.block_number

abbrev pub on_change : Price → Oracle → Oracle
on_change price o = o

module _ {M : Type 0} (framework : Framework M) where
  -- `impl rio_transaction_payment::Trait for Runtime`
  abbrev pub payment : Config M
  payment = record {
    transaction_base_fee = transaction_base_fee;
    transaction_byte_fee = transaction_byte_fee;
    maximum_block_weight = maximum_block_weight;
    weight_to_fee = framework.unit_weight_to_fee;
    fee_multiplier_update = framework.unit_multiplier_update;
    saturated_multiply_accumulate = framework.saturated_multiply_accumulate;
  }

  -- `TransactionPaymentApi::query_info`
  unfoldable pub query_info :
      {Extrinsic : Type 0}
      → (Extrinsic → DispatchInfo)
      → Runtime M
      → Extrinsic
      → ℕ
      → RuntimeDispatchInfo
  query_info get_dispatch_info r uxt len =
      Payment.query_info payment r.next_fee_multiplier get_dispatch_info uxt len

-- An action on the assets beside one other pallet, as an action of the runtime.
module _ {M X : Type 0} (get : Runtime M → X) (set : X → Runtime M → Runtime M) where
  abbrev pub put : Runtime M → Chain X → Runtime M
  put r c = set c.pallet (record r { rio_assets = c.assets })

  abbrev pub on_chain : {A : Type 0} → Action (Chain X) A → Action (Runtime M) A
  on_chain m r = elim (m (record { assets = r.rio_assets; pallet = get r })) [
    | ok a c ↦ ok a (put r c)
    | err e c ↦ err e (put r c)
    | panic ↦ panic
  ]

  Leaves-on_chain_after :
      {A : Type 0} (o : Outcome (Chain X) A) (Q : Chain X → Type 0) (P : Runtime M → Type 0)
      (r : Runtime M)
      → Leaves o Q
      → ((c : Chain X) → Q c → P (put r c))
      → Leaves
          (elim o as (λ _. Outcome (Runtime M) A) [
            | ok a c ↦ ok a (put r c)
            | err e c ↦ err e (put r c)
            | panic ↦ panic
          ])
          P
  Leaves-on_chain_after (ok a c) Q P r h k = k c h
  Leaves-on_chain_after (err e c) Q P r h k = k c h
  Leaves-on_chain_after panic Q P r h k = absurd h

  pub Leaves-on_chain :
      {A : Type 0} (m : Action (Chain X) A) (Q : Chain X → Type 0) (P : Runtime M → Type 0)
      (r : Runtime M)
      → Leaves (m (record { assets = r.rio_assets; pallet = get r })) Q
      → ((c : Chain X) → Q c → P (put r c))
      → Leaves (on_chain m r) P
  Leaves-on_chain m Q P r h k =
      Leaves-on_chain_after (m (record { assets = r.rio_assets; pallet = get r })) Q P r h k

  Returns-on_chain_after :
      {A : Type 0} (o : Outcome (Chain X) A) (Q : Chain X → Type 0) (P : Runtime M → Type 0)
      (r : Runtime M)
      → Returns o (λ _. Q)
      → ((c : Chain X) → Q c → P (put r c))
      → Returns
          (elim o as (λ _. Outcome (Runtime M) A) [
            | ok a c ↦ ok a (put r c)
            | err e c ↦ err e (put r c)
            | panic ↦ panic
          ])
          (λ _. P)
  Returns-on_chain_after (ok a c) Q P r h k = k c h
  Returns-on_chain_after (err e c) Q P r h k = absurd h
  Returns-on_chain_after panic Q P r h k = absurd h

  pub Returns-on_chain :
      {A : Type 0} (m : Action (Chain X) A) (Q : Chain X → Type 0) (P : Runtime M → Type 0)
      (r : Runtime M)
      → Returns (m (record { assets = r.rio_assets; pallet = get r })) (λ _. Q)
      → ((c : Chain X) → Q c → P (put r c))
      → Returns (on_chain m r) (λ _. P)
  Returns-on_chain m Q P r h k =
      Returns-on_chain_after (m (record { assets = r.rio_assets; pallet = get r })) Q P r h k
