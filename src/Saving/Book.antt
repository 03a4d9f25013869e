-- ===== src/Saving/Book.antt =====
-- The book of shares: the circulation is the sum of what the accounts hold, or the pallet is paused.
use riochain.Prelude.{
  ℕ, ◌+◌, ◌-◌, ◌<◌, ◌≤◌, ◌≡◌, true, some, List, [], ◌∷◌, arith, Option-cases, ◌⊎◌,
}
use riochain.Prelude.Words.{u128_mod, wrapping_add, checked_add, checked_sub}
use riochain.Prelude.Maps.{get_or}
use riochain.Prelude.Linked.{lookup}
use riochain.Prelude.Totals.{
  total, IsDistinct, total-insert, total-remove, insert-IsDistinct, remove-IsDistinct,
}
use riochain.Prelude.Outcome.{Returns, Returns->>=, Returns_imp, pure, ◌>>◌}
use riochain.Assets.Types.{AccountId, AssetId, Balance}
use riochain.Assets.Calls.{Chain}
use riochain.Saving.Types.{Saving, Env, Call}
use riochain.Saving.Shares.{
  pause_at, add_shares, sub_shares, add_circulation, sub_circulation, take_from, give_to,
  track_share_asset_movement, on_asset_mint, on_asset_burn,
}

-- The book is short of a balance that is on its way between two accounts.
abbrev pub IsShort : Balance → Chain Saving → Type 0
IsShort balance c =
    (c.pallet.paused ≡ true)
    ⊎ IsDistinct c.pallet.account_shares
      × (total c.pallet.account_shares + balance ≡ c.pallet.shares_circulation)

abbrev pub IsBooked : Chain Saving → Type 0
IsBooked c = IsShort 0 c

abbrev IsBookedTo : ℕ → Unit {0} → Chain Saving → Type 0
IsBookedTo bound _ c = IsBooked c × (c.pallet.shares_circulation ≤ bound)

-- A hook on the share asset that the pallet of the assets runs.
pub data Hook : Type 0 where
  minted burned : AssetId → AccountId → Balance → Hook
  moved : AccountId → AccountId → Balance → Hook

abbrev balance_of : Hook → Balance
balance_of (minted asset_id to balance) = balance
balance_of (burned asset_id from balance) = balance
balance_of (moved from to balance) = balance

abbrev pub balances : List Hook → Balance
balances [] = 0
balances (hook ∷ rest) = balance_of hook + balances rest

unfoldable pub run_hook : Env → Hook → Call
unfolding on_asset_mint on_asset_burn track_share_asset_movement
run_hook env (minted asset_id to balance) = on_asset_mint env asset_id to balance
run_hook env (burned asset_id from balance) = on_asset_burn env asset_id from balance
run_hook env (moved from to balance) = track_share_asset_movement env from to balance

unfoldable pub run_hooks : Env → List Hook → Call
unfolding run_hook
run_hooks env [] = pure tt
run_hooks env (hook ∷ rest) = do run_hook env hook; run_hooks env rest

module _ (env : Env) (i : ℕ) (in_extrinsic : env.extrinsic_index ≡ some i) where
  take_from-IsShort :
      (from : AccountId) (balance : Balance) (c : Chain Saving)
      → c.pallet.shares_circulation + balance < u128_mod
      → IsBooked c
      → Returns (take_from env from balance c) λ _ c'.
        IsShort balance c' × (c'.pallet.shares_circulation ≤ c.pallet.shares_circulation + balance)
  unfolding take_from pause_at wrapping_add
  take_from-IsShort from balance c room h =
      let m = c.pallet.account_shares in
      let had = get_or 0 (lookup from m) in
      ground (
        arith,
        total-remove from m,
        total-insert from (had - balance) m,
        insert-IsDistinct from (had - balance) m,
        remove-IsDistinct from m,
      )

  give_to-IsBooked :
      (to : AccountId) (balance : Balance) (c : Chain Saving)
      → IsShort balance c
      → Returns
          (give_to env to balance c)
          λ _ c'. IsBooked c' × (c'.pallet.shares_circulation ≤ c.pallet.shares_circulation)
  unfolding give_to add_shares sub_circulation pause_at checked_add checked_sub
  give_to-IsBooked to balance c h =
      let m = c.pallet.account_shares in
      let had = get_or 0 (lookup to m) in
      ground (
        arith,
        Option-cases (lookup to m),
        total-insert to balance m,
        total-insert to (had + balance) m,
        insert-IsDistinct to balance m,
        insert-IsDistinct to (had + balance) m,
      )

  movement-IsBooked :
      (from to : AccountId) (balance : Balance) (c : Chain Saving)
      → c.pallet.shares_circulation + balance < u128_mod
      → IsBooked c
      → Returns
          (track_share_asset_movement env from to balance c)
          (IsBookedTo (c.pallet.shares_circulation + balance))
  unfolding track_share_asset_movement
  movement-IsBooked from to balance c room h =
      Returns->>= (λ (_ : Unit). give_to env to balance)
        (λ _ s.
          IsShort balance s × (s.pallet.shares_circulation ≤ c.pallet.shares_circulation + balance))
        (IsBookedTo (c.pallet.shares_circulation + balance)) (take_from env from balance) c
        (take_from-IsShort from balance c room h)
        (λ _ s short.
          Returns_imp (IsBookedTo (c.pallet.shares_circulation + balance))
            (give_to env to balance s) (give_to-IsBooked to balance s short.0)
            (λ _ s' b. (b.0, omega (arith, short, b))))

  on_asset_mint-IsBooked :
      (asset_id : AssetId) (to : AccountId) (balance : Balance) (c : Chain Saving)
      → IsBooked c
      → Returns
          (on_asset_mint env asset_id to balance c)
          (IsBookedTo (c.pallet.shares_circulation + balance))
  unfolding on_asset_mint add_shares add_circulation pause_at checked_add
  on_asset_mint-IsBooked asset_id to balance c h =
      let m = c.pallet.account_shares in
      let had = get_or 0 (lookup to m) in
      ground (
        arith,
        Option-cases (lookup to m),
        total-insert to balance m,
        total-insert to (had + balance) m,
        insert-IsDistinct to balance m,
        insert-IsDistinct to (had + balance) m,
      )

  on_asset_burn-IsBooked :
      (asset_id : AssetId) (from : AccountId) (balance : Balance) (c : Chain Saving)
      → IsBooked c
      → Returns
          (on_asset_burn env asset_id from balance c)
          (IsBookedTo (c.pallet.shares_circulation + balance))
  unfolding on_asset_burn sub_shares sub_circulation pause_at checked_sub
  on_asset_burn-IsBooked asset_id from balance c h =
      let m = c.pallet.account_shares in
      let had = get_or 0 (lookup from m) in
      ground (arith, total-insert from (had - balance) m, insert-IsDistinct from (had - balance) m)

  run_hook-IsBooked :
      (hook : Hook) (c : Chain Saving)
      → c.pallet.shares_circulation + balance_of hook < u128_mod
      → IsBooked c
      → Returns (run_hook env hook c) (IsBookedTo (c.pallet.shares_circulation + balance_of hook))
  unfolding run_hook
  run_hook-IsBooked (minted asset_id to balance) c room h =
      on_asset_mint-IsBooked asset_id to balance c h
  run_hook-IsBooked (burned asset_id from balance) c room h =
      on_asset_burn-IsBooked asset_id from balance c h
  run_hook-IsBooked (moved from to balance) c room h = movement-IsBooked from to balance c room h

  -- The hooks of the pallet, in any order, keep the book of shares, and each of them returns: as
  -- long as the pallet is not paused, the circulation is the sum of what the accounts hold. The
  -- hooks run in an extrinsic, the book is right or the pallet paused at the start, and the circulation
  -- with all the balances that they book is a balance.
  pub run_hooks-IsBooked :
      (hooks : List Hook) (c : Chain Saving)
      → c.pallet.shares_circulation + balances hooks < u128_mod
      → IsBooked c
      → Returns (run_hooks env hooks c) (λ _. IsBooked)
  unfolding run_hooks
  run_hooks-IsBooked [] c room h = h
  run_hooks-IsBooked (hook ∷ rest) c room h =
      Returns->>= (λ (_ : Unit). run_hooks env rest)
        (IsBookedTo (c.pallet.shares_circulation + balance_of hook)) (λ _. IsBooked)
        (run_hook env hook) c (run_hook-IsBooked hook c (omega (arith, room)) h)
        (λ _ s b. run_hooks-IsBooked rest s (omega (arith, room, b.1)) b.0)
