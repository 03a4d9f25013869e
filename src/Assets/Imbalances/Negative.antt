-- ===== src/Assets/Imbalances/Negative.antt =====
-- `NegativeImbalance` of imbalances.rs: its operations and its drop.
use riochain.Prelude.{◌-◌, ◌⊎◌, inl, inr, ltb, if◌then◌else◌, ◌==◌, min}
use riochain.Prelude.Words.{saturating_add, saturating_sub}
use riochain.Prelude.Maps.{update}
use riochain.Prelude.Outcome.{Action, modify}
use riochain.Assets.Types.{AssetId, Balance, Assets}
use riochain.Assets.Imbalances.{PositiveImbalance, NegativeImbalance}

abbrev pub new : Balance → NegativeImbalance
new amount = record { amount = amount }

unfoldable pub zero : NegativeImbalance
zero = new 0

unfoldable pub drop_zero : NegativeImbalance → Unit {0} ⊎ NegativeImbalance
drop_zero self = if self.amount == 0 then inl tt else inr self

unfoldable pub try_drop : NegativeImbalance → Unit {0} ⊎ NegativeImbalance
unfolding drop_zero
try_drop self = drop_zero self

unfoldable pub split : NegativeImbalance → Balance → NegativeImbalance × NegativeImbalance
split self amount = let first = min self.amount amount in (new first, new (self.amount - first))

unfoldable pub merge : NegativeImbalance → NegativeImbalance → NegativeImbalance
unfolding saturating_add
merge self other = new (saturating_add self.amount other.amount)

-- What it writes to `self`.
unfoldable pub subsume : NegativeImbalance → NegativeImbalance → NegativeImbalance
unfolding saturating_add
subsume self other = record self { amount = saturating_add self.amount other.amount }

unfoldable pub offset :
    NegativeImbalance → PositiveImbalance → NegativeImbalance ⊎ PositiveImbalance
offset self other =
    if ltb self.amount other.amount
    then inr (record { amount = other.amount - self.amount })
    else inl (new (self.amount - other.amount))

unfoldable pub peek : NegativeImbalance → Balance
peek self = self.amount

unfoldable pub drop : AssetId → NegativeImbalance → Action Assets Unit
drop asset_id self = modify (λ s. record s {
  total_issuance =
      update s.total_issuance asset_id (saturating_sub (s.total_issuance asset_id) self.amount);
})
