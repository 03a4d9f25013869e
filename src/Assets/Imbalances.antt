-- ===== src/Assets/Imbalances.antt =====
-- imbalances.rs: the tokens of created and destroyed funds. Rust drops a token where its scope ends,
-- which squares the total issuance; the model calls the drop there.
pub mod Positive
pub mod Negative
use riochain.Assets.Types.{Balance}

-- Funds created with no opposite entry.
pub record PositiveImbalance : Type 0 where
  pub amount : Balance

-- Funds destroyed with no opposite entry.
pub record NegativeImbalance : Type 0 where
  pub amount : Balance
