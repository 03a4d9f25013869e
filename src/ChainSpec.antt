-- ===== src/ChainSpec.antt =====
-- The chain specifications of the node (src/chain_spec.rs) and the part of src/cli.rs that chooses
-- one of them.
pub mod Alternative
pub mod Genesis
pub mod Spec
pub mod Ids
pub mod Loading
pub mod Starting
mod Tests
