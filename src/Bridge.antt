-- ===== src/Bridge.antt =====
-- The pallet `rio-bridge` (modules/rio-bridge/src/lib.rs): deposits of bitcoin that are minted as
-- SBTC, at once or after a check of the receiver, and withdrawals that wait in a vault.
pub mod Types
pub mod Module
pub mod Deposits
pub mod Release
pub mod Vault
pub mod Runs
pub mod Dispatch
pub mod Sound
pub mod Seen
mod Tests
