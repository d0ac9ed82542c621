-- ===== src/Verdict.antt =====
-- scripts/agent-harness.py, `evaluate`: its stages, inverted one by one.
pub mod Steps
pub mod Again
pub mod Body
pub mod Results
pub mod Conclusion
pub mod Records
pub mod Sound
