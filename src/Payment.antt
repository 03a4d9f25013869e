-- ===== src/Payment.antt =====
-- The pallet `rio-transaction-payment` (modules/rio-transaction-payment/src/lib.rs): the fee of a
-- transaction, and how its validation charges it. The multiplier is a `Fixed64` of the framework.
pub mod Validity
pub mod Backing
mod Tests
use riochain.Prelude.{ℕ, ◌-◌, ◌%◌, ◌^◌, min, Bool, true, false, ◌==◌, if◌then◌else◌}
use riochain.Prelude.Words.{u128_mod, saturating_add, saturating_mul}
use riochain.Prelude.Outcome.{Action, pure, fail, or_else, ◌>>=◌, ◌>>◌}
use riochain.Assets.Types.{AccountId, Balance, WithdrawReason, WithdrawReasons}
use riochain.Assets.Currency.{Provider, withdraw}
use riochain.Assets.Calls.{Chain, on_assets}
use riochain.Fee.{Fee, FeeExchange, paying, on_nonzero_unbalanced, buy_fee_asset}

-- What the pallet reads of its `Trait`, for a type `M` of multipliers: the constants, the two
-- conversions, and the multiplier's `saturated_multiply_accumulate`.
pub record Config (M : Type 0) : Type 0 where
  pub transaction_base_fee : Balance
  pub transaction_byte_fee : Balance
  pub maximum_block_weight : ℕ
  pub weight_to_fee : ℕ → Balance
  pub fee_multiplier_update : ℕ → M → M
  pub saturated_multiply_accumulate : M → Balance → Balance

-- `DispatchInfo`. Its class is only passed on, so it is a number.
pub record DispatchInfo : Type 0 where
  pub weight : ℕ
  pub class : ℕ
  pub pays_fee : Bool

pub record RuntimeDispatchInfo : Type 0 where
  pub weight : ℕ
  pub class : ℕ
  pub partial_fee : Balance

abbrev pub tipping : WithdrawReasons
tipping WithdrawReason.transaction_payment = true
tipping WithdrawReason.tip = true
tipping _ = false

-- The part of `validate` that moves funds. `on_unbalanced` of the framework calls
-- `on_nonzero_unbalanced`, as the fee is not zero here.
unfoldable pub charge : Provider → AccountId → Balance → WithdrawReasons → Action (Chain Fee) Unit
charge provider who fee reasons = do
  or_else (buy_fee_asset who fee (FeeExchange.v1 (u128_mod - 1)))
      λ e. fail "InvalidTransaction::Custom(100)"
  imbalance ←
      or_else (on_assets (withdraw provider who fee reasons))
        λ e. fail "InvalidTransaction::Payment"
  on_nonzero_unbalanced provider imbalance

-- `next_fee_multiplier` is the pallet's storage.
module _ {M : Type 0} (t : Config M) (next_fee_multiplier : M) where
  unfoldable pub on_finalize : ℕ → M
  on_finalize current_weight = t.fee_multiplier_update current_weight next_fee_multiplier

  unfoldable pub compute_fee : ℕ → DispatchInfo → Balance → Balance
  unfolding saturating_mul saturating_add
  compute_fee len info tip =
      let len_fee = saturating_mul t.transaction_byte_fee len in
      let weight_fee = t.weight_to_fee (min info.weight t.maximum_block_weight) in
      let adjustable_fee = saturating_add len_fee weight_fee in
      let adjusted_fee = t.saturated_multiply_accumulate next_fee_multiplier adjustable_fee in
      if info.pays_fee
      then saturating_add (saturating_add t.transaction_base_fee adjusted_fee) tip
      else tip

  -- `get_dispatch_info` is the extrinsic's implementation of `GetDispatchInfo`.
  unfoldable pub query_info :
      {Extrinsic : Type 0} → (Extrinsic → DispatchInfo) → Extrinsic → ℕ → RuntimeDispatchInfo
  unfolding compute_fee
  query_info get_dispatch_info unchecked_extrinsic len =
      let info = get_dispatch_info unchecked_extrinsic in
      record { weight = info.weight; class = info.class; partial_fee = compute_fee len info 0 }

  -- It returns the priority of the transaction. The length is cut to a `u32`.
  unfoldable pub validate : Provider → AccountId → DispatchInfo → ℕ → Balance → Action (Chain Fee) ℕ
  unfolding compute_fee charge
  validate provider who info len tip = do
    let fee = compute_fee (len % 2 ^ 32) info tip
    if fee == 0 then pure tt else charge provider who fee (if tip == 0 then paying else tipping)
    pure (min fee (2 ^ 64 - 1))
