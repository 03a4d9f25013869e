-- ===== src/Assets/Tests.antt =====
-- The theorems on `rio-assets` at a small state: asset 0, held by accounts 1, 2 and the root key 9.
use riochain.Prelude.{
  ◌+◌, ◌≤◌, ◌≡◌, refl, none, some, List, [], ◌∷◌, arith, ◌==◌, if◌then◌else◌, true, false,
  Bool-cases, inl, inr, ==→≡, contains,
}
use riochain.Prelude.Outcome.{Returns, Leaves, pure, ◌>>=◌}
use riochain.Assets.Types.{AssetId, PermissionType, AccountId, Assets, v1, transferable}
use riochain.Assets.Module.{
  reserve, make_transfer, make_transfer_with_event, mint_free, burn_free, reserve, check_permission,
}
use riochain.Assets.Imbalances.Positive
use riochain.Assets.Currency
use riochain.Assets.Currency.{make_transfer_between_assets}
use riochain.Assets.Calls.{Chain, Origin, root_origin, signed_by, no_hooks, owned_by}
use riochain.Assets.Supply.{IsBacked}
use riochain.Assets.Supply.Exchange.{make_transfer_between_assets-IsBacked}
use riochain.Assets.Atomic.{IsAtomic, errors_change_nothing, make_transfer_between_assets-IsAtomic}
use riochain.Assets.Effects.{drop-burn_raises}
use riochain.Assets.Runs.{Call, dispatch, run}
use riochain.Assets.Genesis.{AssetConfig, build}
use riochain.Assets.Genesis.Backing.{IsFresh, ids, build-IsBacked}
use riochain.Assets.Ledger.{ledger, moved, Reach}
use riochain.Assets.Ledger.Refined.{Does, dispatch-Does, run-Reach}
use riochain.Assets.Runs.Backing.{run-IsBacked}
use riochain.Assets.Runs.Authority.{signed_spends_own}

abbrev accounts : List AccountId
accounts = 1 ∷ 2 ∷ 9 ∷ []

-- Account 1 has 70 free and 10 reserved, account 2 has 20; asset 1 exists and nobody has any.
abbrev two_holders : Assets
two_holders = record {
  total_issuance = λ a. if a == 0 then 100 else 0;
  free_balance =
      λ a who. if a == 0 then (if who == 1 then 70 else if who == 2 then 20 else 0) else 0;
  reserved_balance = λ a who. if a == 0 then (if who == 1 then 10 else 0) else 0;
  permissions = λ a. v1 (owned_by 9);
  restrictions = λ a r. false;
  symbols = λ a. if a == 0 then some [] else if a == 1 then some [] else none;
  from_id = none;
  to_id = none;
  events = [];
}

abbrev start : Chain (Unit {0})
start = record { assets = two_holders; pallet = tt }

-- A mint, a transfer, one that fails for lack of funds, a reservation and a burn.
abbrev calls : List (Origin × Call)
calls =
    (root_origin, Call.mint 0 2 30)
    ∷ (signed_by 2, Call.transfer 0 1 45)
    ∷ (signed_by 2, Call.transfer 0 1 45)
    ∷ (root_origin, Call.set_reserve 0 1 100)
    ∷ (root_origin, Call.burn 0 2 5)
    ∷ []

run-IsBacked_example : IsBacked accounts 0 (run (no_hooks 9) calls start).assets
run-IsBacked_example =
    run-IsBacked 9 accounts (ground arith) 0 calls start (ground arith) (ground arith)
      (ground arith)

two_holders-IsBacked : (a : AssetId) → IsBacked accounts a two_holders
two_holders-IsBacked a = elim (Bool-cases (a == 0)) [
  | inl e ↦ ground (arith, ==→≡ a 0 e)
  | inr e ↦ ground arith
]

run-Reach_example : Reach (ledger two_holders) (ledger (run (no_hooks 9) calls start).assets)
run-Reach_example =
    run-Reach 9 accounts (ground arith) calls start (ground arith) (ground arith)
      two_holders-IsBacked

-- All that account 2 has is sent to account 1.
dispatch-Does_example :
    Does (moved 0 2 1 20) start (dispatch (no_hooks 9) (signed_by 2) (Call.transfer 0 1 20) start)
dispatch-Does_example =
    dispatch-Does 9 accounts (ground arith) (signed_by 2) (Call.transfer 0 1 20) start
      (ground arith) (ground arith) (ground arith) two_holders-IsBacked

-- Asset 5 with an endowment of two accounts, beside asset 6 without one.
abbrev configs : List AssetConfig
configs =
    record {
      id = 5;
      symbol = [];
      restrictions = transferable ∷ [];
      endowed = (1, 30) ∷ (2, 12) ∷ [];
    }
    ∷ record { id = 6; symbol = []; restrictions = []; endowed = [] }
    ∷ []

unknown : (a : AssetId) → contains (ids configs) a ≡ true → IsFresh a two_holders
unknown a found = elim (Bool-cases (5 == a)) [
  | inl e ↦ rw (← ==→≡ 5 a e) (refl, refl, λ who. refl, λ who. refl)
  | inr e ↦ rw (← ==→≡ 6 a (ground (arith, found))) (refl, refl, λ who. refl, λ who. refl)
]

build-IsBacked_example :
    Returns (build (no_hooks 9) 9 configs start) (λ _ c'. IsBacked accounts 5 c'.assets)
build-IsBacked_example =
    build-IsBacked (no_hooks 9) 9 accounts (ground arith) 5 configs start (ground arith)
      (ground arith) unknown (two_holders-IsBacked 5)

signed_spends_own_example :
    Leaves (dispatch (no_hooks 9) (signed_by 1) (Call.transfer 0 2 50) start) λ c'.
      (c'.assets.total_issuance ≡ two_holders.total_issuance)
      × (c'.assets.permissions ≡ two_holders.permissions)
      × (c'.assets.restrictions ≡ two_holders.restrictions)
      × (c'.assets.reserved_balance ≡ two_holders.reserved_balance)
      × (two_holders.free_balance 0 2 ≤ c'.assets.free_balance 0 2)
signed_spends_own_example =
    signed_spends_own 9 1 accounts 0 2 (Call.transfer 0 2 50) start (ground arith) (ground arith)
      (ground arith) (ground arith) (ground arith)

make_transfer_between_assets-IsBacked_example :
    Leaves (make_transfer_between_assets 0 1 1 2 (λ r. true) 30 two_holders) (IsBacked accounts 0)
make_transfer_between_assets-IsBacked_example =
    make_transfer_between_assets-IsBacked accounts 0 0 1 1 2 (λ r. true) 30 two_holders
      (ground arith) (ground arith) (ground arith) (ground arith) (ground arith)

make_transfer_between_assets-IsAtomic_example :
    IsAtomic two_holders (make_transfer_between_assets 0 1 1 2 (λ r. true) 80 two_holders)
make_transfer_between_assets-IsAtomic_example =
    make_transfer_between_assets-IsAtomic two_holders 0 80 0 1 1 2 (λ r. true)

errors_change_nothing_example :
    IsAtomic two_holders (make_transfer 0 1 2 80 two_holders)
    × IsAtomic two_holders (make_transfer_with_event 0 1 2 80 two_holders)
    × IsAtomic two_holders (mint_free 0 1 2 80 two_holders)
    × IsAtomic two_holders (burn_free 0 1 2 80 two_holders)
    × IsAtomic two_holders (reserve 0 1 80 two_holders)
errors_change_nothing_example = errors_change_nothing two_holders 0 80 1 2 1

may_mint : check_permission 0 9 PermissionType.mint two_holders ≡ true
unfolding check_permission
may_mint = refl

may_burn : check_permission 0 9 PermissionType.burn two_holders ≡ true
unfolding check_permission
may_burn = refl

drop-burn_raises_example :
    Returns (Currency.burn (pure 0) 40 two_holders) (λ p s'. (s' ≡ two_holders) × (p.amount ≡ 40))
    × Returns
        ((do p ← Currency.burn (pure 0) 40; Positive.drop 0 p) two_holders)
        (λ _ s'. s'.total_issuance 0 ≡ 100 + 40)
drop-burn_raises_example = drop-burn_raises 0 two_holders 40 (ground arith) (ground arith)
