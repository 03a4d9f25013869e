-- ===== src/Saving/Bonus.antt =====
-- The daily bonus: a fifth of the profit for the team, the rest for the holders of shares.
use riochain.Prelude.{
  ◌+◌, ◌*◌, ◌/◌, ◌%◌, ◌^◌, ◌-◌, Bool, true, false, Option, none, some, [], ◌∷◌, ltb, ◌==◌,
  if◌then◌else◌,
}
use riochain.Prelude.Words.{wrapping_mul, wrapping_sub}
use riochain.Prelude.Linked.{LinkedMap}
use riochain.Prelude.Outcome.{Action, pure, expect, ignore, ◌>>=◌, ◌>>◌}
use riochain.Assets.Types.{AccountId, AssetId, Balance}
use riochain.Assets.Calls.{Chain}
use riochain.Saving.Types.{day_in_milli, Moment, Event, Saving, Call, pallet, change, deposit_event}
use riochain.Saving.Redeem.{transfer, free}

-- Whether a day has passed since the last bonus, whose time then moves on by a day.
unfoldable pub check_bonus_time : Moment → Action (Chain Saving) Bool
check_bonus_time now = do
  last ← pallet (λ s. s.last_bonus_time)
  if last == 0
      then (do
        change λ s. record s { last_bonus_time = now / day_in_milli * day_in_milli }
        pure false)
      else if ltb ((now + 2 ^ 64 - last) % 2 ^ 64) day_in_milli
      then pure false
      else (do
        change λ s. record s { last_bonus_time = (s.last_bonus_time + day_in_milli) % 2 ^ 64 }
        pure true)

unfoldable pub split_profit : Balance → Balance × Balance
unfolding wrapping_mul wrapping_sub
split_profit amount = let users = wrapping_mul amount 8 / 10 in (users, wrapping_sub amount users)

-- A circulation of zero divides by zero.
unfoldable pub user_bonus : Balance → Balance → Balance → Option Balance
unfolding wrapping_mul
user_bonus balance users circulation =
    if circulation == 0 then none else some (wrapping_mul balance users / circulation)

-- Each transfer may fail, and the loop goes on.
unfoldable pub pay_users : AssetId → AccountId → Balance → Balance → LinkedMap Balance → Call
unfolding user_bonus
pay_users profit_asset profit_pool users circulation [] = pure tt
pay_users profit_asset profit_pool users circulation ((user_id, balance) ∷ rest) = do
  bonus ← expect (user_bonus balance users circulation)
  ignore (transfer profit_asset profit_pool user_id bonus)
  pay_users profit_asset profit_pool users circulation rest

unfoldable pub dispatch_bonus : Call
unfolding split_profit pay_users
dispatch_bonus = do
  team_account ← pallet (λ s. s.team_account_id)
  profit_pool ← pallet (λ s. s.profit_pool)
  profit_asset ← pallet (λ s. s.profit_asset_id)
  total_profit ← free profit_asset profit_pool
  circulation ← pallet (λ s. s.shares_circulation)
  let parts = split_profit total_profit
  ignore (transfer profit_asset profit_pool team_account parts.1)
  shares ← pallet (λ s. s.account_shares)
  pay_users profit_asset profit_pool parts.0 circulation shares
  deposit_event Event.bonus
