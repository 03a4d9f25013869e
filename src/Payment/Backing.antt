-- ===== src/Payment/Backing.antt =====
-- Charging a fee keeps the supply of every asset backed.
use riochain.Prelude.{
  ℕ, ◌+◌, ◌%◌, ◌^◌, ◌-◌, ◌<◌, ◌≤◌, ◌≡◌, true, arith, List, contains, IsDistinct, min, ap, ap,
}
use riochain.Prelude.Words.{saturating_add, u128_mod}
use riochain.Prelude.Maps.{update, sum_of-update, le-sum_of}
use riochain.Prelude.Outcome.{Outcome, Action, or_else, fail, ◌>>◌, Leaves, ok, err, panic, ◌>>=◌}
use riochain.Assets.Types.{AccountId, AssetId, Balance, WithdrawReasons, rfuel, locked_rfuel}
use riochain.Assets.Currency.{make_transfer_between_assets, withdraw, rfuel_provider}
use riochain.Assets.Calls.{Chain, on_assets}
use riochain.Assets.Supply.{IsBacked}
use riochain.Assets.Supply.Exchange.{exchange_lem, exchanged-IsBacked}
use riochain.Fee.{Fee, FeeExchange, max_payment, paying, on_nonzero_unbalanced, buy_fee_asset}
use riochain.Payment.{Config, DispatchInfo, compute_fee, tipping, charge, validate}

-- The second half of `charge`.
abbrev collect : AccountId → Balance → WithdrawReasons → Action (Chain Fee) Unit
collect who fee reasons = do
  imbalance ←
      or_else (on_assets (withdraw rfuel_provider who fee reasons))
        λ e. fail "InvalidTransaction::Payment"
  on_nonzero_unbalanced rfuel_provider imbalance

-- The asset is backed, and the fees still go to the account `account`.
abbrev pub IsKept : List AccountId → AssetId → AccountId → Chain Fee → Type 0
IsKept accounts b account c = IsBacked accounts b c.assets × (c.pallet.account_id ≡ account)

module _ (accounts : List AccountId) (distinct : IsDistinct accounts) (b : AssetId)
    (who : AccountId) where
  collect-IsBacked :
      (fee : Balance) (reasons : WithdrawReasons) (c : Chain Fee)
      → contains accounts who ≡ true
      → contains accounts c.pallet.account_id ≡ true
      → c.assets.total_issuance rfuel + fee < u128_mod
      → IsBacked accounts b c.assets
      → Leaves (collect who fee reasons c) (IsKept accounts b c.pallet.account_id)
  unfolding withdraw on_nonzero_unbalanced
  collect-IsBacked fee reasons c hw hf room h =
      let free = c.assets.free_balance rfuel in
      let paid = update free who (free who - fee) in
      let account = c.pallet.account_id in
      ground (
        arith,
        sum_of-update free who (free who - fee) accounts distinct hw,
        sum_of-update paid account (paid account + fee) accounts distinct hf,
        le-sum_of free who accounts hw,
        le-sum_of paid account accounts hf,
      )

  buy_fee_asset-IsBacked :
      (fee : Balance) (exchange_op : FeeExchange) (c : Chain Fee)
      → contains accounts who ≡ true
      → c.assets.total_issuance rfuel + fee < u128_mod
      → IsBacked accounts b c.assets
      → Leaves (buy_fee_asset who fee exchange_op c) λ c'.
        IsBacked accounts b c'.assets
        × (c'.pallet ≡ c.pallet)
        × (c'.assets.total_issuance rfuel ≤ c.assets.total_issuance rfuel + fee)
  unfolding buy_fee_asset make_transfer_between_assets saturating_add
  buy_fee_asset-IsBacked fee exchange_op c hw room h =
      let s = c.assets in
      let bought = min (min fee (s.free_balance locked_rfuel who)) (max_payment exchange_op) in
      ground (
        arith,
        exchange_lem locked_rfuel rfuel who who paying bought s,
        exchanged-IsBacked accounts b locked_rfuel rfuel who who bought s distinct hw hw,
      )

  -- What buying leaves, and what collecting needs of it.
  abbrev IsBought : Balance → Chain Fee → Chain Fee → Type 0
  IsBought fee c c' =
      IsBacked accounts b c'.assets
      × (c'.pallet ≡ c.pallet)
      × (c'.assets.total_issuance rfuel ≤ c.assets.total_issuance rfuel + fee)

  collect-after :
      (fee : Balance) (reasons : WithdrawReasons) (c : Chain Fee) (o : Outcome (Chain Fee) Balance)
      → contains accounts who ≡ true
      → contains accounts c.pallet.account_id ≡ true
      → c.assets.total_issuance rfuel + fee + fee < u128_mod
      → Leaves o (IsBought fee c)
      → Leaves
          ((or_else (λ (_ : Chain Fee). o) (λ e. fail "InvalidTransaction::Custom(100)")
              >> collect who fee reasons)
            c)
          (IsKept accounts b c.pallet.account_id)
  collect-after fee reasons c (ok _ s) hw hf room h =
      let same : s.pallet.account_id ≡ c.pallet.account_id = ap (λ f. f.account_id) h.1 in
      rw (← same) (collect-IsBacked fee reasons s hw (ground arith) (ground arith) h.0)
  collect-after fee reasons c (err _ s) hw hf room h = (h.0, ap (λ f. f.account_id) h.1)
  collect-after fee reasons c panic hw hf room h = h

  charge-IsBacked :
      (fee : Balance) (reasons : WithdrawReasons) (c : Chain Fee)
      → contains accounts who ≡ true
      → contains accounts c.pallet.account_id ≡ true
      → c.assets.total_issuance rfuel + fee + fee < u128_mod
      → IsBacked accounts b c.assets
      → Leaves (charge rfuel_provider who fee reasons c) (IsKept accounts b c.pallet.account_id)
  unfolding charge
  charge-IsBacked fee reasons c hw hf room h =
      let all_max = FeeExchange.v1 (u128_mod - 1) in
      collect-after fee reasons c (buy_fee_asset who fee all_max c) hw hf room
        (buy_fee_asset-IsBacked fee all_max c hw (ground arith) h)

  -- Charging for a transaction keeps every asset backed and the fee account as it was, whatever the
  -- validation answers, if the payer and the fee account are listed and the issuance of fuel has
  -- room for twice the fee. The listed accounts are distinct and back the asset before.
  pub validate-IsBacked :
      {M : Type 0} (t : Config M) (multiplier : M) (info : DispatchInfo) (len : ℕ) (tip : Balance)
      (c : Chain Fee)
      → contains accounts who ≡ true
      → contains accounts c.pallet.account_id ≡ true
      → (let fee = compute_fee t multiplier (len % 2 ^ 32) info tip in
          c.assets.total_issuance rfuel + fee + fee < u128_mod)
      → IsBacked accounts b c.assets
      → Leaves
          (validate t multiplier rfuel_provider who info len tip c)
          (IsKept accounts b c.pallet.account_id)
  unfolding validate
  validate-IsBacked t multiplier info len tip c hw hf room h =
      let fee = compute_fee t multiplier (len % 2 ^ 32) info tip in
      ground (
        arith,
        charge-IsBacked fee paying c hw hf room h,
        charge-IsBacked fee tipping c hw hf room h,
      )
