-- ===== src/Core/Conformance/Validate.antt =====
-- conformance.py: `validate_lease_for_command`, with its keyword arguments in two records.
pub mod Spec
pub mod Sound
pub mod Limits
use rclp.Prelude.{
  ℕ, Bool, true, false, not, Option, none, some, String, List, [], ◌∷◌, contains, lookup, Violation,
  reject_if, ◌<|>◌, require, Verdict,
}
use rclp.Core.Value.{Fields}
use rclp.Core.Time.{Instant, aware}
use rclp.Core.Models.{
  CapabilityLease, CapabilityConstraintRequirement, CapabilityConstraintBounds, RobotStateAssertion,
  protocol_version_violation,
}
use rclp.Core.Runtime.{Runtime}
use rclp.Core.SignedText.{lease_signed_material_too_large}
use rclp.Core.Leases.{
  capability_constraint_bound_violation, capability_constraint_requirement_violation,
  lease_matches_context, lease_signature_algorithm_violation, lease_time_violation,
  verify_lease_signature,
}
use rclp.Core.State.{state_auth_violation, state_time_violation, robot_state_required_wire_fields}
use rclp.Core.Conformance.{
  Outcome, returns, lease_clock_skew_seconds, issuer_key_registry, capability_scope_violation,
  lease_policy_provenance_violation, lease_requires_current_state, lease_constraints_malformed,
  lease_state_violation, validate_command_payload_against_constraints,
}

-- What the local configuration passes.
pub record Config : Type 0 where
  pub issuer_public_key_b64 : Option String
  pub issuer_public_keys_by_id : Option (List (String × String))
  pub trusted_issuer_ids : List String
  pub accepted_capabilities : Option (List String)
  pub accepted_policy_id : Option String
  pub accepted_policy_digests : Option (List String)
  pub issuer_capability_scopes : Option (List (String × List String))
  pub capability_constraint_requirements : Option (List (String × CapabilityConstraintRequirement))
  pub capability_constraint_bounds : Option (List (String × CapabilityConstraintBounds))
  pub state_public_keys_by_edge_id : Option (List (String × String))
  pub max_lease_age_seconds : ℕ
  pub max_lease_ttl_seconds : ℕ
  pub max_state_age_seconds : ℕ

-- What the command passes.
pub record Use : Type 0 where
  pub agent_id : String
  pub edge_agent_id : String
  pub robot_id : String
  pub mission_id : String
  pub capability : String
  pub command_payload : Option Fields

-- The lease is checked by itself, before the robot's state and the payload.
module _ (rt : Runtime) (config : Config) where
  unfoldable pub signature_checks : CapabilityLease → String → Violation
  signature_checks lease issuer_public_key =
      lease_signature_algorithm_violation lease
      <|> reject_if (lease_signed_material_too_large rt lease) "LEASE_SIGNED_MATERIAL_TOO_LARGE"
      <|> reject_if (not (verify_lease_signature rt lease issuer_public_key)) "INVALID_SIGNATURE"

  unfoldable pub issuer_keys : List (String × String)
  issuer_keys =
      issuer_key_registry config.trusted_issuer_ids config.issuer_public_key_b64
        config.issuer_public_keys_by_id

  unfoldable pub issuer_violation : CapabilityLease → Violation
  issuer_violation lease =
      protocol_version_violation (lease.base ∷ [])
      <|> reject_if (not (contains lease.issuer_id config.trusted_issuer_ids)) "ISSUER_NOT_TRUSTED"
      <|> require (lookup lease.issuer_id issuer_keys) "ISSUER_KEY_NOT_TRUSTED"
          (signature_checks lease)

  unfoldable pub grant_violation : CapabilityLease → Use → List String → Instant → Violation
  grant_violation lease use_of revoked_lease_ids now =
      lease_policy_provenance_violation lease config.accepted_policy_id
        config.accepted_policy_digests
      <|> capability_scope_violation lease config.accepted_capabilities
          config.issuer_capability_scopes
      <|> lease_time_violation lease (aware now) config.max_lease_age_seconds
          config.max_lease_ttl_seconds lease_clock_skew_seconds
      <|> capability_constraint_requirement_violation lease
          config.capability_constraint_requirements
      <|> reject_if (lease_constraints_malformed lease.constraints) "LEASE_CONSTRAINT_MALFORMED"
      <|> capability_constraint_bound_violation lease config.capability_constraint_bounds
      <|> reject_if
          (not (
            lease_matches_context lease use_of.agent_id use_of.edge_agent_id use_of.robot_id
              use_of.mission_id use_of.capability))
          "LEASE_CONTEXT_MISMATCH"
      <|> reject_if (contains lease.lease_id revoked_lease_ids) "LEASE_REVOKED"

  unfoldable pub state_violation :
      CapabilityLease → Option RobotStateAssertion → Instant → Violation
  state_violation lease none now =
      reject_if (lease_requires_current_state lease) "CURRENT_STATE_REQUIRED"
  state_violation lease (some state) now =
      require config.state_public_keys_by_edge_id "STATE_AUTH_REQUIRED" λ public_keys.
        state_auth_violation rt public_keys state robot_state_required_wire_fields
        <|> protocol_version_violation (state.base ∷ [])
        <|> state_time_violation state now config.max_state_age_seconds
        <|> lease_state_violation lease state

  -- A violation ends the call; the payload comes last.
  unfoldable pub before_payload : Violation → CapabilityLease → Use → Outcome Verdict
  before_payload (some reason) lease use_of = returns (false, reason)
  before_payload none lease use_of =
      validate_command_payload_against_constraints lease use_of.command_payload

  unfoldable pub validate_lease_for_command :
      Option CapabilityLease
      → Use
      → Option RobotStateAssertion
      → List String
      → Instant
      → Outcome Verdict
  validate_lease_for_command none use_of current_state revoked_lease_ids now =
      returns (false, "NO_LEASE")
  validate_lease_for_command (some lease) use_of current_state revoked_lease_ids now =
      before_payload
        (issuer_violation lease
          <|> grant_violation lease use_of revoked_lease_ids now
          <|> state_violation lease current_state now)
        lease use_of
