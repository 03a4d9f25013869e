-- ===== src/Oracle.antt =====
-- The pallet `rio-oracle` (modules/rio-oracle/src/lib.rs): which reporters are heard, and the
-- interface through which `rio-price` uses it. A height is a `u32`.
pub mod Window
use riochain.Prelude.{ℕ, ◌+◌, ◌%◌, ◌^◌, Bool, List, leb}
use riochain.Prelude.Maps.{update}
use riochain.Assets.Types.{AccountId}

-- `OracleMixedIn`, over the storage `W` of its implementation.
pub record OracleMixedIn (W : Type 0) : Type 0 where
  pub on_witnessed : AccountId → W → W
  pub is_valid : AccountId → W → Bool

pub record Oracle : Type 0 where
  pub oracles : List AccountId
  pub witness_report : AccountId → ℕ

-- The current height is the answer of `system::block_number`.
module _ (report_interval height : ℕ) where
  unfoldable pub on_witnessed : AccountId → Oracle → Oracle
  on_witnessed who o = record o { witness_report = update o.witness_report who height }

  unfoldable pub is_valid : AccountId → Oracle → Bool
  is_valid who o = leb height ((o.witness_report who + report_interval) % 2 ^ 32)

  abbrev pub mixed_in : OracleMixedIn Oracle
  mixed_in = record { on_witnessed = on_witnessed; is_valid = is_valid }
