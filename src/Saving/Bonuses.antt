-- ===== src/Saving/Bonuses.antt =====
-- The profit covers the team's part and the bonuses of all the holders of shares.
use native.Mathlib.Nat.{
  div-mul-le_self, add-mul, mul_comm, mul-le-mul_right, le_of_mul-le-mul_right,
}
use riochain.Prelude.{◌+◌, ◌*◌, ◌≤◌, ◌<◌, ◌≡◌, [], ◌∷◌, arith}
use riochain.Prelude.Words.{u128_mod, wrapping_mul, wrapping_sub}
use riochain.Prelude.Maps.{get_or}
use riochain.Prelude.Linked.{LinkedMap}
use riochain.Prelude.Totals.{total}
use riochain.Assets.Types.{Balance}
use riochain.Saving.Bonus.{split_profit, user_bonus}

-- The bonuses of all holders.
abbrev pub bonuses : Balance → Balance → LinkedMap Balance → Balance
bonuses users circulation [] = 0
bonuses users circulation ((_, balance) ∷ rest) =
    get_or 0 (user_bonus balance users circulation) + bonuses users circulation rest

split_profit_lem :
    (amount : Balance)
    → amount * 8 < u128_mod
    → ((split_profit amount).0 + (split_profit amount).1 ≡ amount)
      × ((split_profit amount).0 * 10 ≤ amount * 8)
unfolding split_profit wrapping_mul wrapping_sub
split_profit_lem amount small = ground arith

bonus_lem :
    (balance users circulation : Balance)
    → get_or 0 (user_bonus balance users circulation) * circulation ≤ balance * users
unfolding user_bonus wrapping_mul
bonus_lem balance users circulation =
    ground (arith, div-mul-le_self (wrapping_mul balance users) circulation)

bonuses_mul :
    (users circulation : Balance) (m : LinkedMap Balance)
    → bonuses users circulation m * circulation ≤ total m * users
bonuses_mul users circulation [] = ground arith
bonuses_mul users circulation ((k, balance) ∷ rest) =
    let bonus = get_or 0 (user_bonus balance users circulation) in
    rw
      (
        add-mul bonus (bonuses users circulation rest) circulation,
        add-mul balance (total rest) users,
      )
      (omega (arith, bonus_lem balance users circulation, bonuses_mul users circulation rest))

-- The profit covers the team's part with the bonuses of all holders, whose shares are within the
-- circulation. There are shares in circulation, and eight times the profit is a balance.
pub profit_covers :
    (amount circulation : Balance) (m : LinkedMap Balance)
    → amount * 8 < u128_mod
    → 0 < circulation
    → total m ≤ circulation
    → (split_profit amount).1 + bonuses (split_profit amount).0 circulation m ≤ amount
profit_covers amount circulation m small pos within =
    let users = (split_profit amount).0 in
    let sum : bonuses users circulation m * circulation ≤ users * circulation = omega (
      arith,
      bonuses_mul users circulation m,
      mul-le-mul_right users within,
      mul_comm users circulation,
    ) in
    omega (arith, split_profit_lem amount small, le_of_mul-le-mul_right sum pos)
