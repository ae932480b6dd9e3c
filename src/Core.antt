-- ===== src/Core.antt =====
-- The package src/rclp_core: values and time, messages, and the checks over them.
pub mod Float
pub mod Value
pub mod Time
pub mod Models
pub mod Budget
pub mod Base64
pub mod Runtime
pub mod Crypto
pub mod SignedText
pub mod Leases
pub mod State
pub mod Hash
pub mod Keys
pub mod Attestation
pub mod Fallback
pub mod Audit
pub mod Issue
pub mod Signer
pub mod Conformance
