-- ===== src/Assets/Imbalances/Positive.antt =====
-- `PositiveImbalance` of imbalances.rs: its operations and its drop.
use riochain.Prelude.{◌-◌, ◌⊎◌, inl, inr, ltb, if◌then◌else◌, ◌==◌, min}
use riochain.Prelude.Words.{saturating_add}
use riochain.Prelude.Maps.{update}
use riochain.Prelude.Outcome.{Action, modify}
use riochain.Assets.Types.{AssetId, Balance, Assets}
use riochain.Assets.Imbalances.{PositiveImbalance, NegativeImbalance}

abbrev pub new : Balance → PositiveImbalance
new amount = record { amount = amount }

unfoldable pub zero : PositiveImbalance
zero = new 0

-- `Err` gives the token back.
unfoldable pub drop_zero : PositiveImbalance → Unit {0} ⊎ PositiveImbalance
drop_zero self = if self.amount == 0 then inl tt else inr self

unfoldable pub try_drop : PositiveImbalance → Unit {0} ⊎ PositiveImbalance
unfolding drop_zero
try_drop self = drop_zero self

unfoldable pub split : PositiveImbalance → Balance → PositiveImbalance × PositiveImbalance
split self amount = let first = min self.amount amount in (new first, new (self.amount - first))

unfoldable pub merge : PositiveImbalance → PositiveImbalance → PositiveImbalance
unfolding saturating_add
merge self other = new (saturating_add self.amount other.amount)

-- What it writes to `self`.
unfoldable pub subsume : PositiveImbalance → PositiveImbalance → PositiveImbalance
unfolding saturating_add
subsume self other = record self { amount = saturating_add self.amount other.amount }

unfoldable pub offset :
    PositiveImbalance → NegativeImbalance → PositiveImbalance ⊎ NegativeImbalance
offset self other =
    if ltb self.amount other.amount
    then inr (record { amount = other.amount - self.amount })
    else inl (new (self.amount - other.amount))

unfoldable pub peek : PositiveImbalance → Balance
peek self = self.amount

unfoldable pub drop : AssetId → PositiveImbalance → Action Assets Unit
unfolding saturating_add
drop asset_id self = modify (λ s. record s {
  total_issuance =
      update s.total_issuance asset_id (saturating_add (s.total_issuance asset_id) self.amount);
})
