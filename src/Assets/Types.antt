-- ===== src/Assets/Types.antt =====
-- The data of `rio-assets`: attributes.rs, permissions.rs, protocol.rs, and the storage and events
-- of lib.rs. Accounts and asset ids are only compared, so they are numbers; a balance is a `u128`.
use riochain.Prelude.{ℕ, Bool, Option, List, ◌∷◌}
use riochain.Prelude.Outcome.{Action, modify}

abbrev pub AccountId : Type 0
AccountId = ℕ

abbrev pub AssetId : Type 0
AssetId = ℕ

abbrev pub Balance : Type 0
Balance = ℕ

pub data Owner : Type 0 where
  none : Owner
  address : AccountId → Owner

pub record PermissionsV1 : Type 0 where
  pub update : Owner
  pub mint : Owner
  pub burn : Owner

-- `PermissionLatest` is `PermissionsV1`, so the conversions between the two are these.
pub data PermissionVersions : Type 0 where
  v1 : PermissionsV1 → PermissionVersions

abbrev pub into_latest : PermissionVersions → PermissionsV1
into_latest (v1 p) = p

pub data PermissionType : Type 0 where
  burn mint update : PermissionType

pub data Restriction : Type 0 where
  transferable : Restriction

pub record AssetOptions : Type 0 where
  pub initial_issuance : Balance
  pub permissions : PermissionsV1

pub data Event : Type 0 where
  created : AssetId → AccountId → AssetOptions → Event
  transferred : AssetId → AccountId → AccountId → Balance → Event
  permission_updated : AssetId → PermissionsV1 → Event
  minted burned : AssetId → AccountId → Balance → Event

-- The reasons of a withdrawal that the source names; a set of them is what `contains` answers.
pub data WithdrawReason : Type 0 where
  transfer transaction_payment tip : WithdrawReason

abbrev pub WithdrawReasons : Type 0
WithdrawReasons = WithdrawReason → Bool

-- The storage of the pallet, with the events that it has deposited, the newest first.
pub record Assets : Type 0 where
  pub total_issuance : AssetId → Balance
  pub free_balance : AssetId → AccountId → Balance
  pub reserved_balance : AssetId → AccountId → Balance
  pub permissions : AssetId → PermissionVersions
  pub restrictions : AssetId → Restriction → Bool
  pub symbols : AssetId → Option (List ℕ)
  pub from_id : Option AssetId
  pub to_id : Option AssetId
  pub events : List Event

abbrev pub deposit_event : Event → Action Assets Unit
deposit_event e = modify (λ s. record s { events = e ∷ s.events })

-- protocol.rs
abbrev pub rfuel : AssetId
rfuel = 0

abbrev pub locked_rfuel : AssetId
locked_rfuel = 1

abbrev pub sbtc : AssetId
sbtc = 10
