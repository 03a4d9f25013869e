-- ===== src/Saving/Types.antt =====
-- The data, the storage and the events of modules/rio-saving/src/lib.rs. Phase ids and counts of
-- terms are `u32`, a moment is a `u64` of milliseconds.
use riochain.Prelude.{ℕ, Bool, Option, List, ◌∷◌}
use riochain.Prelude.Linked.{LinkedMap}
use riochain.Prelude.Outcome.{Action, gets, modify}
use riochain.Assets.Types.{AccountId, AssetId, Balance}
use riochain.Assets.Calls.{Chain, on_pallet}
use riochain.Price.{Price}

abbrev pub day_in_milli : ℕ
day_in_milli = 86400000

abbrev pub reserved_mint_ratio : ℕ
reserved_mint_ratio = 6500

abbrev pub reserved_mint_div : ℕ
reserved_mint_div = 10000

abbrev pub PhaseId : Type 0
PhaseId = ℕ

abbrev pub Moment : Type 0
Moment = ℕ

pub record PhaseInfo : Type 0 where
  pub id : PhaseId
  pub quota : Balance
  pub exchange : Balance
  pub iou_asset_id : Option AssetId

-- What `phase_info` returns for an unknown phase.
abbrev pub default_phase : PhaseInfo
default_phase = record { id = 0; quota = 0; exchange = 0; iou_asset_id = Option.none }

pub record Iou : Type 0 where
  pub asset_id : AssetId
  pub balance : Balance
  pub owner : AccountId

pub data ReleaseTrigger : Type 0 where
  phase_change : ReleaseTrigger
  block_number : ℕ → ReleaseTrigger

pub record SharePackage : Type 0 where
  pub terms_total : ℕ
  pub terms_left : ℕ
  pub per_term : Balance

pub record ShareReleasePack : Type 0 where
  pub asset_id : AssetId
  pub owner : AccountId
  pub phase_id : PhaseId
  pub empty : Bool
  pub major : SharePackage
  pub minor : Option SharePackage
  pub release_trigger : ReleaseTrigger

pub data BalanceChange : Type 0 where
  positive negative : Balance → BalanceChange

-- `ReleaseSavingShare` is never deposited.
pub data Event : Type 0 where
  phase_changed : PhaseId → PhaseId → Event
  release_saving_share : AccountId → Balance → Event
  staking_created staking_redeemed : AccountId → Balance → AssetId → Balance → Event
  paused : ℕ → ℕ → ℕ → Event
  bonus : Event

pub record Saving : Type 0 where
  pub collection_asset_id : AssetId
  pub collection_account_id : AccountId
  pub share_asset_id : AssetId
  pub share_asset_collected : AccountId → Balance
  pub iou_asset_phase_id : AssetId → Option PhaseId
  pub current_phase_id : PhaseId
  pub quota_used : Balance
  pub num_of_phases_left : ℕ
  pub num_of_phases : ℕ
  pub phase_infos : LinkedMap PhaseInfo
  pub share_unreleased_list : LinkedMap (List ShareReleasePack)
  pub account_shares : LinkedMap Balance
  pub shares_circulation : Balance
  pub paused : Bool
  pub last_bonus_time : Moment
  pub profit_asset_id : AssetId
  pub profit_pool : AccountId
  pub team_account_id : AccountId
  pub reserved_mint_wallet : AccountId
  pub reserved_mint_asset_id : AssetId
  pub events : List Event

-- What the pallet reads of others: the time, the block's number, the index of the extrinsic, which
-- is `none` outside of one, and the price of `rio-price`.
pub record Env : Type 0 where
  pub now : Moment
  pub block_number : ℕ
  pub extrinsic_index : Option ℕ
  pub current_price : Price

abbrev pub Call : Type 0
Call = Action (Chain Saving) Unit

abbrev pub pallet : {A : Type 0} → (Saving → A) → Action (Chain Saving) A
pallet f = gets (λ c. f c.pallet)

abbrev pub change : (Saving → Saving) → Call
change f = on_pallet (modify f)

abbrev pub deposit_event : Event → Call
deposit_event e = change λ s. record s { events = e ∷ s.events }
