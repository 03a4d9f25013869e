-- ===== src/Payment/Validity.antt =====
-- What a valid transaction pays, and to whom.
use riochain.Prelude.{ℕ, ◌+◌, ◌%◌, ◌-◌, ◌^◌, ◌<◌, ◌≤◌, ◌≡◌, ◌≢◌, true, false, arith, min, ◌⊎◌}
use riochain.Prelude.Words.{u128_mod, saturating_add}
use riochain.Prelude.Maps.{exists}
use riochain.Prelude.Outcome.{Returns}
use riochain.Assets.Types.{AccountId, Balance, WithdrawReasons, rfuel, locked_rfuel, transferable}
use riochain.Assets.Currency.{withdraw, rfuel_provider}
use riochain.Assets.Calls.{Chain}
use riochain.Fee.{Fee, paying, on_nonzero_unbalanced}
use riochain.Fee.Charge.{bought_for, buy_fee_asset_lem}
use riochain.Payment.{tipping, Config, DispatchInfo, compute_fee, query_info, charge, validate}

-- What the payer, the fee account and the two assets need for a fee to be charged.
pub record IsChargeable (who : AccountId) (fee : Balance) (c : Chain Fee) : Type 0 where
  pub small : fee < u128_mod
  pub apart : who ≢ c.pallet.account_id
  pub known_locked : exists (c.assets.symbols locked_rfuel) ≡ true
  pub known : exists (c.assets.symbols rfuel) ≡ true
  pub free : c.assets.restrictions rfuel transferable ≡ false
  pub funds : fee ≤ c.assets.free_balance rfuel who + bought_for who fee c
  pub room : c.assets.free_balance rfuel who + bought_for who fee c < u128_mod
  pub room_account : c.assets.free_balance rfuel c.pallet.account_id + fee < u128_mod
  pub issued : bought_for who fee c ≤ c.assets.total_issuance locked_rfuel
  pub room_issue : c.assets.total_issuance rfuel + bought_for who fee c + fee < u128_mod

-- What charging a fee does, from `c` to `c'`.
pub record IsCharged (who : AccountId) (fee : Balance) (c c' : Chain Fee) : Type 0 where
  pub paid :
      c'.assets.free_balance rfuel who + fee
      ≡ c.assets.free_balance rfuel who + bought_for who fee c
  pub unlocked :
      c'.assets.free_balance locked_rfuel who + bought_for who fee c
      ≡ c.assets.free_balance locked_rfuel who
  pub collected :
      c'.assets.free_balance rfuel c.pallet.account_id
      ≡ c.assets.free_balance rfuel c.pallet.account_id + fee
  pub issued : c'.assets.total_issuance rfuel ≡ c.assets.total_issuance rfuel + bought_for who fee c
  pub issued_locked :
      c'.assets.total_issuance locked_rfuel + bought_for who fee c
      ≡ c.assets.total_issuance locked_rfuel

charge_lem :
    (who : AccountId) (fee : Balance) (reasons : WithdrawReasons) (c : Chain Fee)
    → IsChargeable who fee c
    → Returns (charge rfuel_provider who fee reasons c) λ _ c'. IsCharged who fee c c'
unfolding charge withdraw on_nonzero_unbalanced
charge_lem who fee reasons c h =
    ground (arith, buy_fee_asset_lem who fee c h.small h.known_locked h.known h.room)

module _ {M : Type 0} (t : Config M) (multiplier : M) where
  -- A transaction whose fee is not zero and chargeable is valid, with the fee as its priority, up to
  -- the largest `u64`. The payer's locked fuel is turned into fuel, up to the fee or to all that is
  -- locked, then the fee moves from the payer to the fee account. The issuance of fuel grows and
  -- that of locked fuel falls by what was turned, and by nothing else.
  pub validate_charges :
      (who : AccountId) (info : DispatchInfo) (len : ℕ) (tip : Balance) (c : Chain Fee)
      → 0 < compute_fee t multiplier (len % 2 ^ 32) info tip
      → IsChargeable who (compute_fee t multiplier (len % 2 ^ 32) info tip) c
      → Returns (validate t multiplier rfuel_provider who info len tip c) λ priority c'.
        (priority ≡ min (compute_fee t multiplier (len % 2 ^ 32) info tip) (2 ^ 64 - 1))
        × IsCharged who (compute_fee t multiplier (len % 2 ^ 32) info tip) c c'
  unfolding validate
  validate_charges who info len tip c pays h =
      let fee = compute_fee t multiplier (len % 2 ^ 32) info tip in
      ground (arith, charge_lem who fee paying c h, charge_lem who fee tipping c h)

  -- What `query_info` quotes for an extrinsic is what `validate` charges for it without a tip: the
  -- payer is charged the quoted fee, and it is the priority, up to the largest `u64`. The quoted fee
  -- is not zero and chargeable, and the length is a `u32`.
  pub validate-query_info :
      {Extrinsic : Type 0} (get_dispatch_info : Extrinsic → DispatchInfo) (extrinsic : Extrinsic)
      (who : AccountId) (len : ℕ) (c : Chain Fee)
      → len < 2 ^ 32
      → 0 < (query_info t multiplier get_dispatch_info extrinsic len).partial_fee
      → IsChargeable who (query_info t multiplier get_dispatch_info extrinsic len).partial_fee c
      → Returns
          (validate t multiplier rfuel_provider who (get_dispatch_info extrinsic) len 0 c)
          λ priority c'.
            (priority
              ≡ min
                  (query_info t multiplier get_dispatch_info extrinsic len).partial_fee
                  (2 ^ 64 - 1))
            × IsCharged who
                (query_info t multiplier get_dispatch_info extrinsic len).partial_fee
                c
                c'
  unfolding query_info
  validate-query_info get_dispatch_info extrinsic who len c short pays h =
      let info = get_dispatch_info extrinsic in
      let cut : len ≡ len % 2 ^ 32 = ground (arith, short) in
      let charged = validate_charges who info len 0 c (rw cut at pays) (rw cut at h) in
      rw (← cut) at charged

  -- The fee of a call that pays is the tip, the base fee and the adjusted fee, or the largest
  -- balance if that is less; the fee of one that does not is its tip. It is never less than the tip.
  pub compute_fee_bounds :
      (info : DispatchInfo) (len : ℕ) (tip : Balance)
      → tip < u128_mod
      → (tip ≤ compute_fee t multiplier len info tip)
        × ((info.pays_fee ≡ false) × (compute_fee t multiplier len info tip ≡ tip)
            ⊎ (t.transaction_base_fee ≤ compute_fee t multiplier len info tip)
            ⊎ (compute_fee t multiplier len info tip ≡ u128_mod - 1))
  unfolding compute_fee saturating_add
  compute_fee_bounds info len tip small = ground arith
