-- ===== src/Saving.antt =====
-- The pallet `rio-saving` (modules/rio-saving/src/lib.rs): savings in phases, the shares that they
-- release, redemption, and the bonus of the shares.
pub mod Types
pub mod Packs
pub mod Minting
pub mod Phases
pub mod Redeem
pub mod Shares
pub mod Bonus
pub mod Hooks
pub mod Calls
pub mod Schedule
pub mod Aggregate
pub mod Book
pub mod Steady
pub mod Release
pub mod Staking
pub mod Fuel
pub mod Redeeming
pub mod Settling
pub mod Redemption
pub mod Bonuses
mod Tests
pub mod Conserved
