-- ===== src/Loan.antt =====
-- The pallet `rio-loan` (modules/rio-loan/src/lib.rs): loans against collateral.
pub mod Types
pub mod Terms
pub mod Packages
pub mod Lending
pub mod Apply
pub mod Liquidation
pub mod Blocks
pub mod Calls
pub mod Credit
pub mod Safety
pub mod Stuck
pub mod Repay
pub mod Liquidating
pub mod Books
pub mod Kept
pub mod Granted
pub mod Checked
pub mod Runs
pub mod Liquidated
pub mod Totals
pub mod Opening
mod Tests
