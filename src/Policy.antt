-- ===== src/Policy.antt =====
-- policy.py: the policy engine, which decides on capability requests.
pub mod Replay
pub mod Request
pub mod Rules
pub mod Narrow
pub mod Decide
pub mod Recorded
pub mod Issued
