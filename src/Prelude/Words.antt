-- ===== src/Prelude/Words.antt =====
-- Unsigned words of Rust. `Balance` and `Price` are `u128`; the operators `+`, `-` and `*` on them
-- wrap, as in a build without overflow checks, and division by zero panics where it is used.
use riochain.Prelude.{ℕ, ◌+◌, ◌-◌, ◌*◌, ◌%◌, ◌^◌, Option, none, some, ltb, if◌then◌else◌}

abbrev pub u128_mod : ℕ
u128_mod = 2 ^ 128

unfoldable pub wrapping_add : ℕ → ℕ → ℕ
wrapping_add a b = (a + b) % u128_mod

unfoldable pub wrapping_sub : ℕ → ℕ → ℕ
wrapping_sub a b = (a + u128_mod - b) % u128_mod

unfoldable pub wrapping_mul : ℕ → ℕ → ℕ
wrapping_mul a b = (a * b) % u128_mod

unfoldable pub checked_add : ℕ → ℕ → Option ℕ
checked_add a b = if ltb (a + b) u128_mod then some (a + b) else none

unfoldable pub checked_sub : ℕ → ℕ → Option ℕ
checked_sub a b = if ltb a b then none else some (a - b)

unfoldable pub saturating_add : ℕ → ℕ → ℕ
saturating_add a b = if ltb (a + b) u128_mod then a + b else u128_mod - 1

-- `-` on ℕ stops at 0, as `saturating_sub` does.
abbrev pub saturating_sub : ℕ → ℕ → ℕ
saturating_sub a b = a - b

unfoldable pub saturating_mul : ℕ → ℕ → ℕ
saturating_mul a b = if ltb (a * b) u128_mod then a * b else u128_mod - 1
