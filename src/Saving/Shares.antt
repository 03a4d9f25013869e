-- ===== src/Saving/Shares.antt =====
-- The book of shares: the hooks on minting, burning and moving the share asset. What cannot be booked
-- pauses the pallet, with the number of the source's line in the event.
use riochain.Prelude.{ℕ, ◌-◌, true, none, some, ltb, ◌==◌, ◌&&◌, not, if◌then◌else◌}
use riochain.Prelude.Words.{wrapping_add, checked_add, checked_sub}
use riochain.Prelude.Maps.{exists, get_or}
use riochain.Prelude.Linked.{lookup, insert, remove}
use riochain.Prelude.Outcome.{pure, expect, ◌>>=◌, ◌>>◌}
use riochain.Assets.Types.{AccountId, AssetId, Balance}
use riochain.Saving.Types.{Event, Saving, Env, Call, pallet, change, deposit_event}

abbrev pub shares_of : AccountId → Saving → Balance
shares_of who s = get_or 0 (lookup who s.account_shares)

abbrev put_shares : AccountId → Balance → Call
put_shares who balance =
    change λ s. record s { account_shares = insert who balance s.account_shares }

abbrev put_circulation : Balance → Call
put_circulation balance = change λ s. record s { shares_circulation = balance }

module _ (env : Env) where
  -- `_pause`: outside of an extrinsic it panics.
  unfoldable pub pause_at : ℕ → Call
  pause_at linum = do
    change λ s. record s { paused = true }
    index ← expect env.extrinsic_index
    deposit_event (Event.paused linum env.block_number index)

  -- The closures that `mutate` runs on an account's shares and on the circulation. A missing account
  -- is written all the same.
  unfoldable pub add_shares : ℕ → AccountId → Balance → Call
  unfolding pause_at checked_add
  add_shares linum who balance = do
    v ← pallet (shares_of who)
    elim (checked_add v balance) [
      | none ↦ do pause_at linum; put_shares who v
      | some shares ↦ put_shares who shares
    ]

  unfoldable pub sub_shares : ℕ → AccountId → Balance → Call
  unfolding pause_at checked_sub
  sub_shares linum who balance = do
    v ← pallet (shares_of who)
    elim (checked_sub v balance) [
      | none ↦ do pause_at linum; put_shares who v
      | some shares ↦ put_shares who shares
    ]

  unfoldable pub add_circulation : ℕ → Balance → Call
  unfolding pause_at checked_add
  add_circulation linum balance = do
    v ← pallet (λ s. s.shares_circulation)
    elim (checked_add v balance) [ none ↦ pause_at linum | some shares ↦ put_circulation shares ]

  unfoldable pub sub_circulation : ℕ → Balance → Call
  unfolding pause_at checked_sub
  sub_circulation linum balance = do
    v ← pallet (λ s. s.shares_circulation)
    elim (checked_sub v balance) [ none ↦ pause_at linum | some shares ↦ put_circulation shares ]

  -- The two halves of `track_share_asset_movement`.
  unfoldable pub take_from : AccountId → Balance → Call
  unfolding pause_at wrapping_add
  take_from from balance = do
    collection ← pallet (λ s. from == s.collection_account_id)
    from_balance ← pallet (shares_of from)
    if collection
        then (change
            λ s. record s { shares_circulation = wrapping_add s.shares_circulation balance })
        else if ltb from_balance balance
        then pause_at 1085
        else if from_balance == balance
        then (change λ s. record s { account_shares = remove from s.account_shares })
        else put_shares from (from_balance - balance)

  unfoldable pub give_to : AccountId → Balance → Call
  unfolding add_shares sub_circulation
  give_to to balance = do
    collection ← pallet (λ s. to == s.collection_account_id)
    found ← pallet (λ s. exists (lookup to s.account_shares))
    if collection
        then sub_circulation 1116 balance
        else if found
        then add_shares 1104 to balance
        else put_shares to balance

  unfoldable pub track_share_asset_movement : AccountId → AccountId → Balance → Call
  unfolding take_from give_to
  track_share_asset_movement from to balance = do take_from from balance; give_to to balance

  unfoldable pub on_asset_mint : AssetId → AccountId → Balance → Call
  unfolding add_shares add_circulation
  on_asset_mint asset_id to balance = do
    tracked ← pallet (λ s. s.share_asset_id == asset_id && not (s.collection_account_id == to))
    found ← pallet (λ s. exists (lookup to s.account_shares))
    if not tracked then pure tt else do
      if found then add_shares 1253 to balance else put_shares to balance
      add_circulation 1264 balance

  unfoldable pub on_asset_burn : AssetId → AccountId → Balance → Call
  unfolding sub_shares sub_circulation
  on_asset_burn asset_id from balance = do
    paused ← pallet (λ s. s.paused)
    tracked ← pallet (λ s. s.share_asset_id == asset_id && not (s.collection_account_id == from))
    if paused
        then pure tt
        else if not tracked
        then pure tt
        else do sub_shares 1291 from balance; sub_circulation 1299 balance
