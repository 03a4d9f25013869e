-- ===== src/Payment/Tests.antt =====
-- The theorems on fees at a small state: account 1 has 50 of fuel and 30 of locked fuel, account 2
-- collects the fees. The base fee is 10, a byte costs 1, and a multiplier is added to the fee.
use riochain.Prelude.{
  ◌-◌, ◌^◌, ◌≡◌, refl, none, some, List, [], ◌∷◌, arith, ◌==◌, if◌then◌else◌, true, false, min, ℕ,
}
use riochain.Prelude.Words.{saturating_add, saturating_mul}
use riochain.Prelude.Outcome.{Returns, Leaves}
use riochain.Assets.Types.{AccountId, Assets, v1}
use riochain.Assets.Calls.{Chain, owned_by}
use riochain.Assets.Currency.{rfuel_provider}
use riochain.Assets.Supply.{IsBacked}
use riochain.Fee.{Fee}
use riochain.Payment.{Config, DispatchInfo, compute_fee, query_info, validate}
use riochain.Payment.Validity.{IsChargeable, IsCharged, validate_charges, validate-query_info}
use riochain.Payment.Backing.{validate-IsBacked}

abbrev accounts : List AccountId
accounts = 1 ∷ 2 ∷ []

abbrev assets : Assets
assets = record {
  total_issuance = λ a. if a == 0 then 50 else if a == 1 then 30 else 0;
  free_balance = λ a who. if who == 1 then (if a == 0 then 50 else if a == 1 then 30 else 0) else 0;
  reserved_balance = λ a who. 0;
  permissions = λ a. v1 (owned_by 9);
  restrictions = λ a r. false;
  symbols = λ a. some [];
  from_id = none;
  to_id = none;
  events = [];
}

abbrev start : Chain Fee
start = record { assets = assets; pallet = record { account_id = 2; events = [] } }

abbrev flat : Config ℕ
flat = record {
  transaction_base_fee = 10;
  transaction_byte_fee = 1;
  maximum_block_weight = 100;
  weight_to_fee = λ w. 0;
  fee_multiplier_update = λ w m. m;
  saturated_multiply_accumulate = λ m fee. saturating_add fee m;
}

abbrev normal : DispatchInfo
normal = record { weight = 7; class = 0; pays_fee = true }

fee_of : compute_fee flat 0 32 normal 3 ≡ 45
unfolding compute_fee saturating_add saturating_mul
fee_of = refl

chargeable : IsChargeable 1 (compute_fee flat 0 32 normal 3) start
chargeable = rw fee_of (record {
  small = ground arith;
  apart = ground arith;
  known_locked = refl;
  known = refl;
  free = refl;
  funds = ground arith;
  room = ground arith;
  room_account = ground arith;
  issued = ground arith;
  room_issue = ground arith;
})

validate_charges_example :
    Returns (validate flat 0 rfuel_provider 1 normal 32 3 start) λ priority c'.
      (priority ≡ min (compute_fee flat 0 32 normal 3) (2 ^ 64 - 1))
      × IsCharged 1 (compute_fee flat 0 32 normal 3) start c'
validate_charges_example =
    validate_charges flat 0 1 normal 32 3 start (ground (arith, fee_of)) chargeable

validate-IsBacked_example :
    Leaves
      (validate flat 0 rfuel_provider 1 normal 32 3 start)
      (λ c'. IsBacked accounts 0 c'.assets × (c'.pallet.account_id ≡ 2))
validate-IsBacked_example =
    validate-IsBacked accounts (ground arith) 0 1 flat 0 normal 32 3 start (ground arith)
      (ground arith) (ground (arith, fee_of)) (ground arith)

-- Every extrinsic is a normal one here.
abbrev dispatch_info_of : ℕ → DispatchInfo
dispatch_info_of extrinsic = normal

quoted : (query_info flat 0 dispatch_info_of 9 32).partial_fee ≡ 42
unfolding query_info compute_fee saturating_add saturating_mul
quoted = refl

quoted-IsChargeable : IsChargeable 1 (query_info flat 0 dispatch_info_of 9 32).partial_fee start
quoted-IsChargeable = rw quoted (record {
  small = ground arith;
  apart = ground arith;
  known_locked = refl;
  known = refl;
  free = refl;
  funds = ground arith;
  room = ground arith;
  room_account = ground arith;
  issued = ground arith;
  room_issue = ground arith;
})

validate-query_info_example :
    Returns (validate flat 0 rfuel_provider 1 normal 32 0 start) λ priority c'.
      (priority ≡ min (query_info flat 0 dispatch_info_of 9 32).partial_fee (2 ^ 64 - 1))
      × IsCharged 1 (query_info flat 0 dispatch_info_of 9 32).partial_fee start c'
validate-query_info_example =
    validate-query_info flat 0 dispatch_info_of 9 1 32 start (ground arith) (ground (arith, quoted))
      quoted-IsChargeable
