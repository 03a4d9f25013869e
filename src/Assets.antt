-- ===== src/Assets.antt =====
-- The pallet `rio-assets` (modules/rio-assets/src): its data, its operations, and their proofs.
pub mod Types
pub mod Module
pub mod Imbalances
pub mod Currency
pub mod Calls
pub mod Genesis
pub mod Supply
pub mod Atomic
pub mod Effects
pub mod Runs
pub mod Ledger
mod Tests
