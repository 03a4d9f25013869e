-- ===== src/Bridge/Types.antt =====
-- The data, the storage and the events of rio-bridge/src/lib.rs.
use riochain.Prelude.{ℕ, Bool, Option, List}
use riochain.Assets.Types.{AccountId, AssetId, Balance}

abbrev pub TxHash : Type 0
TxHash = ℕ

pub data BlackOrWhite : Type 0 where
  black white : BlackOrWhite

pub data Auth : Type 0 where
  all deposit withdraw refund mark : Auth

pub record Deposit : Type 0 where
  pub account_id : AccountId
  pub tx_hash : Option TxHash
  pub amount : Balance

pub data Event : Type 0 where
  account_marked : AccountId → BlackOrWhite → Event
  deposited pending : AccountId → Balance → TxHash → Event
  pending_withdraw refunded withdrawn : AccountId → Balance → Event

-- The storage, with the events that the pallet has deposited, the newest first.
pub record Bridge : Type 0 where
  pub asset_id : AssetId
  pub paused : Bool
  pub list : AccountId → Option BlackOrWhite
  pub threshold : Balance
  pub admins : AccountId → Option Auth
  pub pending_deposit_list : AccountId → List Deposit
  pub deposit_history : TxHash → Option Deposit
  pub pending_withdraws : AccountId → Option (List Balance)
  pub pending_withdraw_vault : AccountId
  pub events : List Event
