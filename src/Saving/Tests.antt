-- ===== src/Saving/Tests.antt =====
-- The theorems on `rio-saving` at a small state: asset 2 is collected, asset 5 is the share asset, and
-- asset 11 that of the first of two phases. Account 1 has saved, 6 is the collection account, and 9
-- the root key.
use riochain.Prelude.{
  ◌+◌, ◌-◌, ◌<◌, ◌≤◌, ◌≡◌, refl, inr, ◌⊎◌, none, some, List, [], ◌∷◌, arith, ◌==◌, ◌&&◌,
  if◌then◌else◌, true, false,
}
use riochain.Prelude.Words.{wrapping_add, wrapping_mul}
use riochain.Prelude.Outcome.{err, Returns, Keeps, Ends, abort}
use riochain.Assets.Types.{Assets, v1}
use riochain.Assets.Module.{check_permission}
use riochain.Assets.Calls.{Chain, owned_by}
use riochain.Saving.Types.{PhaseInfo, ShareReleasePack, ReleaseTrigger, BalanceChange, Saving, Env}
use riochain.Saving.Packs.{
  collect, collect_one, is_of, terms_left, get_total_balance, create_share_release_pack,
  aggregate_phase_unreleased,
}
use riochain.Saving.Phases.{release_list, create_staking_fuel, create_staking}
use riochain.Saving.Redeem.{use_returned, level, redeem_required_balances_in_ratio, make_redeem}
use riochain.Saving.Hooks.{inner_hooks}
use riochain.Saving.Bonus.{split_profit}
use riochain.Saving.Schedule.{release_all, pack_pays_out}
use riochain.Saving.Aggregate.{total_of, aggregate_withdraws}
use riochain.Saving.Book.{minted, burned, moved, Hook, run_hooks, IsBooked, run_hooks-IsBooked}
use riochain.Saving.Release.{inner_hooks-IsQuiet}
use riochain.Saving.Staking.{IsWithin, create_staking-IsWithin}
use riochain.Saving.Conserved.{IsReleased, release_list_conserves}
use riochain.Saving.Fuel.{create_staking_total}
use riochain.Saving.Redeeming.{taken, taken_matches, make_redeem_unbooked}
use riochain.Saving.Redemption.{IsRedeemable, Done, taken_here, make_redeem_succeeds}
use riochain.Saving.Bonuses.{bonuses, profit_covers}

abbrev assets : Assets
assets = record {
  total_issuance = λ a. 1000;
  free_balance = λ a who. if a == 5 && who == 1 then 200 else if a == 2 && who == 6 then 40 else 0;
  reserved_balance = λ a who. 0;
  permissions = λ a. v1 (owned_by 9);
  restrictions = λ a r. false;
  symbols = λ a. some [];
  from_id = none;
  to_id = none;
  events = [];
}

abbrev first_phase : PhaseInfo
first_phase = record { id = 1; quota = 100; exchange = 10; iou_asset_id = some 11 }

abbrev second_phase : PhaseInfo
second_phase = record { id = 2; quota = 100; exchange = 8; iou_asset_id = some 12 }

-- One of two terms of 200 shares is left.
abbrev pack : ShareReleasePack
pack = record {
  asset_id = 5;
  owner = 1;
  phase_id = 1;
  empty = false;
  major = record { terms_total = 2; terms_left = 1; per_term = 200 };
  minor = none;
  release_trigger = ReleaseTrigger.phase_change;
}

abbrev saving : Saving
saving = record {
  collection_asset_id = 2;
  collection_account_id = 6;
  share_asset_id = 5;
  share_asset_collected = λ who. 0;
  iou_asset_phase_id = λ a. if a == 11 then some 1 else if a == 12 then some 2 else none;
  current_phase_id = 1;
  quota_used = 40;
  num_of_phases_left = 2;
  num_of_phases = 2;
  phase_infos = (2, second_phase) ∷ (1, first_phase) ∷ [];
  share_unreleased_list = (1, pack ∷ []) ∷ [];
  account_shares = (1, 200) ∷ (3, 300) ∷ [];
  shares_circulation = 500;
  paused = false;
  last_bonus_time = 86400000;
  profit_asset_id = 2;
  profit_pool = 7;
  team_account_id = 8;
  reserved_mint_wallet = 4;
  reserved_mint_asset_id = 3;
  events = [];
}

abbrev start : Chain Saving
start = record { assets = assets; pallet = saving }

abbrev env : Env
env = record { now = 0; block_number = 5; extrinsic_index = some 0; current_price = 100 }

start-IsRedeemable : IsRedeemable 9 1 env 5 2 11 10 50 50 start
unfolding redeem_required_balances_in_ratio wrapping_mul wrapping_add use_returned level total_of
    collect collect_one is_of terms_left check_permission
start-IsRedeemable = record {
  none_returned = refl;
  parts = refl;
  requirement = refl;
  small_requirement = ground arith;
  marked = (refl, tt);
  own = ((refl, refl), tt);
  small = ground arith;
  covered = ground arith;
  fills = inr (record { pos = ground arith; fills = ground arith; room = ground arith });
  payable = record {
    apart = ground arith;
    kinds = ground arith;
    shares_open = (refl, refl);
    collected_open = (refl, refl);
    funds = ground arith;
    bounded = ground arith;
    room = ground arith;
    stock = ground arith;
    bounded_stock = ground arith;
    room_back = ground arith;
    issued = ground arith;
    bounded_issue = ground arith;
    may_burn = refl;
  };
}

make_redeem_succeeds_example :
    Returns
      (make_redeem (inner_hooks 9 env) 11 1 2 6 10 5 start)
      (Done 9 1 env 5 2 11 10 50 50 start 1 (taken_here 9 1 env 5 2 11 10 50 50 start) 5 1)
make_redeem_succeeds_example =
    make_redeem_succeeds 9 1 env 5 2 11 10 50 50 start 5 1 start-IsRedeemable

abbrev hooks : List Hook
hooks = moved 1 3 50 ∷ minted 5 1 20 ∷ burned 5 3 10 ∷ []

run_hooks-IsBooked_example : Returns (run_hooks env hooks start) (λ _. IsBooked)
run_hooks-IsBooked_example =
    run_hooks-IsBooked env 0 refl hooks start (ground arith) (inr ((refl, (refl, tt)), refl))

-- Staking 150 fills the first phase and 90 of the next one.
create_staking_total_example :
    create_staking_fuel (inner_hooks 9 env) abort 9 1 150 start
    ≡ create_staking (inner_hooks 9 env) 1 150 start
create_staking_total_example =
    create_staking_total (inner_hooks 9 env) (inner_hooks-IsQuiet 9 env) abort 9 1 150 start
      (ground arith) (ground arith)

create_staking-IsWithin_example :
    Ends
      (create_staking (inner_hooks 9 env) 1 150 start)
      (λ staked c'. IsWithin c' × (staked ≤ 150))
      IsWithin
create_staking-IsWithin_example =
    create_staking-IsWithin (inner_hooks 9 env) (inner_hooks-IsQuiet 9 env) 1 150 start
      (ground arith) (ground arith)

pack_pays_out_example :
    (p : ShareReleasePack) × (create_share_release_pack 1 5 1 400 3 ≡ some p)
    × (get_total_balance p ≡ 400)
    × ((release_all 3 p).0 ≡ 400)
    × ((release_all 3 p).1.empty ≡ true)
pack_pays_out_example = pack_pays_out 1 5 1 400 3 (ground arith) (ground arith) (ground arith)

aggregate_withdraws_example :
    ((50 ≤ total_of 5 1 (pack ∷ []))
      × Returns
          (aggregate_phase_unreleased (pack ∷ []) 1 5 1 (some (BalanceChange.negative 50)) saving)
          λ nl s'.
            (s' ≡ saving)
            × (total_of 5 1 nl ≡ total_of 5 1 (pack ∷ []) - (if 5 == 5 && 1 == 1 then 50 else 0)))
    ⊎ ((total_of 5 1 (pack ∷ []) < 50)
        × (aggregate_phase_unreleased (pack ∷ []) 1 5 1 (some (BalanceChange.negative 50)) saving
            ≡ err "not enought locked balance" saving))
unfolding total_of collect collect_one is_of terms_left
aggregate_withdraws_example =
    aggregate_withdraws 5 1 (pack ∷ []) 1 50 saving 5 1 (refl, tt) (ground arith)
      (inr (record { pos = ground arith; fills = ground arith; room = ground arith }))

taken_matches_example :
    ((20 ≤ 50 + 50)
      × ((taken 20 50 50 200 10).from_free + (taken 20 50 50 200 10).from_locked + 20 ≡ 50 + 50)
      × ((20 + 200 + 10 < 50 + 50)
          ⊎ ((taken 20 50 50 200 10).from_free ≤ 10) × ((taken 20 50 50 200 10).from_locked ≤ 200)))
    ⊎ ((50 + 50 < 20)
        × ((wrapping_add
                (wrapping_add (taken 20 50 50 200 10).from_free (taken 20 50 50 200 10).from_locked)
                20
              == wrapping_add 50 50)
            ≡ false))
taken_matches_example = taken_matches 20 50 50 200 10 (ground arith) (ground arith)

make_redeem_unbooked_example : Keeps (make_redeem (inner_hooks 9 env) 11 1 2 6 10 5 start) λ c'.
    (c'.pallet.account_shares ≡ start.pallet.account_shares)
    × (c'.pallet.shares_circulation ≡ start.pallet.shares_circulation)
    × (c'.pallet.collection_account_id ≡ start.pallet.collection_account_id)
make_redeem_unbooked_example = make_redeem_unbooked 9 env 11 1 2 10 5 start

profit_covers_example :
    (split_profit 1000).1 + bonuses (split_profit 1000).0 500 ((1, 200) ∷ (3, 300) ∷ []) ≤ 1000
profit_covers_example =
    profit_covers 1000 500 ((1, 200) ∷ (3, 300) ∷ []) (ground arith) (ground arith) (ground arith)

release_list_conserves_example :
    Ends
      (release_list (inner_hooks 9 env) (pack ∷ []) start)
      (IsReleased 9 env 5 start (pack ∷ []))
      (λ _. ⊥)
release_list_conserves_example =
    release_list_conserves 9 env 5 (pack ∷ []) start (refl, tt) (refl, tt)
