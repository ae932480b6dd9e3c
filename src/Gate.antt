-- ===== src/Gate.antt =====
-- The package src/rclp_ros2: the command gate and its durable stores.
pub mod Replay
pub mod Revocations
pub mod Payload
pub mod State
pub mod Auth
pub mod Denials
pub mod Reject
pub mod Evaluate
pub mod Revoke
pub mod Runs
pub mod Init
