-- ===== src/Violations.antt =====
-- The rules of Effect.NoPass for the functions of scripts/agent-harness.py.
pub mod Readers
pub mod Files
pub mod Calls
pub mod Stages
pub mod Writing
