-- ===== src/Saving/Calls.antt =====
-- The dispatchable calls of modules/rio-saving/src/lib.rs, `on_initialize`, and the genesis of the
-- phases.
use riochain.Prelude.{
  String, ◌+◌, true, false, some, List, [], ◌∷◌, length, leb, ◌==◌, not, if◌then◌else◌,
}
use riochain.Prelude.Maps.{update, exists, get_or}
use riochain.Prelude.Linked.{lookup, insert}
use riochain.Prelude.Outcome.{pure, fail, ensure, or_else, ◌>>=◌, ◌>>◌}
use riochain.Assets.Types.{AccountId, AssetId, Balance}
use riochain.Assets.Module.{asset_exists}
use riochain.Assets.Calls
use riochain.Assets.Calls.{Chain, Origin, root_origin, ensure_root, ensure_signed, Trait}
use riochain.Saving.Types.{PhaseId, PhaseInfo, default_phase, Saving, Env, Call, pallet, change}
use riochain.Saving.Minting.{sbtc_to_reserved_mint, create_reserved, burn_reserved}
use riochain.Saving.Phases.{create_staking}
use riochain.Saving.Redeem.{transfer, free, check_can_redeem, make_redeem}
use riochain.Saving.Bonus.{check_bonus_time, dispatch_bonus}

unfoldable pub pause : Origin → Call
pause origin = do ensure_root origin; change λ s. record s { paused = true }

unfoldable pub resume : Origin → Call
resume origin = do ensure_root origin; change λ s. record s { paused = false }

abbrev ensure_exists : AssetId → String → Call
ensure_exists asset_id message c = ensure (asset_exists asset_id c.assets) message c

unfoldable pub set_share_asset_id : Origin → AssetId → Call
unfolding asset_exists
set_share_asset_id origin asset_id = do
  ensure_root origin
  ensure_exists asset_id "invalid asset id for rio saving share asset"
  change λ s. record s { share_asset_id = asset_id }

-- The phase that the asset belonged to forgets it only in the map from assets.
unfoldable pub set_iou_asset_id_for_phase : Origin → PhaseId → AssetId → Call
unfolding asset_exists
set_iou_asset_id_for_phase origin phase_id asset_id = do
  ensure_root origin
  known ← pallet (λ s. exists (lookup phase_id s.phase_infos))
  ensure known "invalid phase id for rio saving"
  ensure_exists asset_id "invalid iou asset id for rio saving"
  change λ s.
      let info = get_or default_phase (lookup phase_id s.phase_infos) in
      record s {
        phase_infos = insert phase_id (record info { iou_asset_id = some asset_id }) s.phase_infos;
        iou_asset_phase_id = update s.iou_asset_phase_id asset_id (some phase_id);
      }

unfoldable pub set_collection_account : Origin → AccountId → Call
set_collection_account origin account_id = do
  ensure_root origin
  change λ s. record s { collection_account_id = account_id }

unfoldable pub set_collection_asset_id : Origin → AssetId → Call
unfolding asset_exists
set_collection_asset_id origin asset_id = do
  ensure_root origin
  ensure_exists asset_id "invalid collection asset id"
  change λ s. record s { collection_asset_id = asset_id }

unfoldable pub set_profit_asset_id : Origin → AssetId → Call
unfolding asset_exists
set_profit_asset_id origin asset_id = do
  ensure_root origin
  ensure_exists asset_id "invalid collection asset id"
  change λ s. record s { profit_asset_id = asset_id }

unfoldable pub set_profit_pool : Origin → AccountId → Call
set_profit_pool origin account_id = do
  ensure_root origin
  change λ s. record s { profit_pool = account_id }

unfoldable pub set_team_account_id : Origin → AccountId → Call
set_team_account_id origin account_id = do
  ensure_root origin
  change λ s. record s { team_account_id = account_id }

abbrev ensure_running : Call
ensure_running = do paused ← pallet (λ s. s.paused); ensure (not paused) "module is paused"

module _ (t : Trait Saving) (env : Env) where
  -- What `staking` and `sudo_staking` share: the one stakes for its signer, the other for a delegatee.
  unfoldable pub stake_for : AccountId → AssetId → Balance → Call
  unfolding create_staking create_reserved sbtc_to_reserved_mint
  stake_for who asset_id amount = do
    collection_account_id ← pallet (λ s. s.collection_account_id)
    collected ← pallet (λ s. s.collection_asset_id == asset_id)
    ensure collected "can't collect this asset"
    funds ← free asset_id who
    ensure (leb amount funds) "insufficient balance"
    staking_balance ← create_staking t who amount
    transfer asset_id who collection_account_id staking_balance
    create_reserved t (sbtc_to_reserved_mint env.current_price staking_balance)

  unfoldable pub staking : Origin → AssetId → Balance → Call
  unfolding stake_for
  staking origin asset_id amount = do
    ensure_running
    who ← ensure_signed origin
    stake_for who asset_id amount

  unfoldable pub sudo_staking : Origin → AssetId → Balance → AccountId → Call
  unfolding stake_for
  sudo_staking origin asset_id amount delegatee = do
    ensure_running
    ensure_root origin
    stake_for delegatee asset_id amount

  -- The end of `redeem` and `sudo_redeem`: the phase's asset moves to the collection account, and
  -- back again if the redemption fails; then it is burnt.
  unfoldable pub redeem_to : AssetId → AssetId → AccountId → AssetId → AccountId → Balance → Call
  unfolding make_redeem
  redeem_to share_asset_id collection_asset_id collection_account_id iou_asset_id who amount = do
    transfer iou_asset_id who collection_account_id amount
    or_else
        (make_redeem t iou_asset_id who collection_asset_id collection_account_id amount
          share_asset_id)
        λ e. do transfer iou_asset_id collection_account_id who amount; fail e
    Calls.burn t root_origin iou_asset_id collection_account_id amount

  unfoldable pub redeem : Origin → AssetId → Balance → Call
  unfolding redeem_to check_can_redeem burn_reserved sbtc_to_reserved_mint
  redeem origin iou_asset_id iou_asset_amount = do
    ensure_running
    who ← ensure_signed origin
    share_asset_id ← pallet (λ s. s.share_asset_id)
    collection_asset_id ← pallet (λ s. s.collection_asset_id)
    collection_account_id ← pallet (λ s. s.collection_account_id)
    ensure (not (share_asset_id == 0)) "fail to find share asset id"
    ensure (not (collection_asset_id == 0)) "fail to find collection asset id"
    known ← pallet (λ s. exists (s.iou_asset_phase_id iou_asset_id))
    ensure known "no such contract assets"
    let reserved = sbtc_to_reserved_mint env.current_price iou_asset_amount
    reserve_asset ← pallet (λ s. s.reserved_mint_asset_id)
    wallet ← pallet (λ s. s.reserved_mint_wallet)
    stock ← free reserve_asset wallet
    ensure (leb reserved stock) "reserved wallet is short"
    check_can_redeem iou_asset_id who iou_asset_amount
    burn_reserved t reserved
    redeem_to share_asset_id collection_asset_id collection_account_id iou_asset_id who
        iou_asset_amount

  -- It burns nothing of the reserve.
  unfoldable pub sudo_redeem : Origin → AssetId → Balance → AccountId → Call
  unfolding redeem_to check_can_redeem
  sudo_redeem origin iou_asset_id iou_asset_amount delegatee = do
    ensure_running
    ensure_root origin
    share_asset_id ← pallet (λ s. s.share_asset_id)
    collection_asset_id ← pallet (λ s. s.collection_asset_id)
    collection_account_id ← pallet (λ s. s.collection_account_id)
    ensure (not (share_asset_id == 0)) "fail to find share asset id"
    ensure (not (collection_asset_id == 0)) "fail to find collection asset id"
    known ← pallet (λ s. exists (s.iou_asset_phase_id iou_asset_id))
    ensure known "no such contract assets"
    check_can_redeem iou_asset_id delegatee iou_asset_amount
    redeem_to share_asset_id collection_asset_id collection_account_id iou_asset_id delegatee
        iou_asset_amount

unfoldable pub force_release_bonus : Origin → Call
unfolding dispatch_bonus
force_release_bonus origin = do ensure_running; ensure_root origin; dispatch_bonus

unfoldable pub on_initialize : Env → Call
unfolding check_bonus_time dispatch_bonus
on_initialize env = do
  paused ← pallet (λ s. s.paused)
  if paused
      then pure tt
      else do due ← check_bonus_time env.now; if due then dispatch_bonus else pure tt

-- The genesis of the phases: their ids count from 1.
abbrev pub PhaseConfig : Type 0
PhaseConfig = Balance × Balance × AssetId

unfoldable pub build_phases : PhaseId → List PhaseConfig → Saving → Saving
build_phases id [] s = s
build_phases id ((quota, exchange, asset_id) ∷ rest) s =
    let info : PhaseInfo = record {
      id = id;
      quota = quota;
      exchange = exchange;
      iou_asset_id = some asset_id;
    } in
    build_phases (id + 1) rest (record s {
      phase_infos = insert id info s.phase_infos;
      iou_asset_phase_id = update s.iou_asset_phase_id asset_id (some id);
    })

unfoldable pub build : List PhaseConfig → Saving → Saving
unfolding build_phases
build phase_infos s =
    let built = build_phases 1 phase_infos s in
    record built { num_of_phases_left = length phase_infos; num_of_phases = length phase_infos }
