-- ===== src/Outcome.antt =====
-- scripts/agent-harness.py: states, check results and exceptions.
mod Base
pub mod Aggregate
unfoldable pub use Base.*
