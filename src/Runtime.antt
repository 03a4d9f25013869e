-- ===== src/Runtime.antt =====
-- The runtime of the chain (runtime/src): which pallets it has, how they are configured, the calls
-- that it dispatches, and what holds after any number of blocks.
pub mod Constants
pub mod Types
pub mod Calls
pub mod Sound
pub mod Genesis
pub mod Launch
