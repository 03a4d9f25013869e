-- ===== src/Prelude/Outcome.antt =====
-- A runtime call: its outcomes, how calls are put together, and rules for the sequences of calls.
pub mod Actions
pub mod Rules
pub mod Endings
pub use Actions.*
pub use Rules.*
pub use Endings.*
