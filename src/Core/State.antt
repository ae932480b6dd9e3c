-- ===== src/Core/State.antt =====
-- state.py: robot state and control-plane assertions, their signer and their age.
pub mod Spec
use rclp.Prelude.{
  ℕ, ◌+◌, Bool, true, false, not, Option, none, some, String, List, [], ◌∷◌, ◌==◌, contains, subset,
  lookup, Violation, reject_if, ◌<|>◌, require,
}
use rclp.Core.Time.{Instant}
use rclp.Core.Time.Fresh.{timestamps_violation}
use rclp.Core.Models.{
  NetworkState, RobotStateAssertion, ControlPlaneReachabilityAssertion, NetworkProfile, unknown,
  partition, signature_algorithm_violation, state_message, plane_message,
}
use rclp.Core.Runtime.{Runtime}
use rclp.Core.Crypto.{verify_with_public_key_b64}
use rclp.Core.SignedText.{
  robot_state_signed_material_too_large, control_plane_reachability_signed_material_too_large,
}

abbrev pub default_state_max_age_seconds : ℕ
default_state_max_age_seconds = 30

abbrev pub state_clock_skew_seconds : ℕ
state_clock_skew_seconds = 30

abbrev pub robot_state_required_wire_fields : List String
robot_state_required_wire_fields = "safety_state" ∷ []

abbrev pub network_state_required_wire_fields : List String
network_state_required_wire_fields = "attached" ∷ []

abbrev pub control_plane_reachability_required_wire_fields : List String
control_plane_reachability_required_wire_fields = "reachable" ∷ []

unfoldable pub network_state_required_fields_missing : NetworkState → Bool
network_state_required_fields_missing network =
    not (subset network_state_required_wire_fields network.model_fields_set)

unfoldable pub profile_violation : NetworkProfile → Violation
profile_violation unknown = some "NETWORK_STATE_UNKNOWN"
profile_violation partition = some "NETWORK_DETACHED"
profile_violation _ = none

unfoldable pub network_state_authority_violation : NetworkState → Violation
network_state_authority_violation network =
    profile_violation network.profile <|> reject_if (not network.attached) "NETWORK_DETACHED"

unfoldable pub state_time_violation : RobotStateAssertion → Instant → ℕ → Violation
state_time_violation state now max_age_seconds =
    timestamps_violation now state_clock_skew_seconds (max_age_seconds + state_clock_skew_seconds)
      "STATE_TIMESTAMP_INVALID" "STATE_NOT_YET_VALID" "STATE_STALE"
      (state.created_at ∷ state.observed_at ∷ state.network_state.observed_at
        ∷ state.geofence_state.verified_at ∷ [])

unfoldable pub control_plane_reachability_time_violation :
    ControlPlaneReachabilityAssertion → Instant → ℕ → Violation
control_plane_reachability_time_violation assertion now max_age_seconds =
    timestamps_violation now state_clock_skew_seconds (max_age_seconds + state_clock_skew_seconds)
      "CONTROL_PLANE_TIMESTAMP_INVALID" "CONTROL_PLANE_NOT_YET_VALID" "CONTROL_PLANE_STATE_STALE"
      (assertion.created_at ∷ assertion.observed_at ∷ [])

module _ (rt : Runtime) (edge_public_keys_by_id : List (String × String)) where
  -- The last checks of `state_auth_violation`, once there are a signature and a key.
  unfoldable pub state_signature_checks : RobotStateAssertion → String → String → Violation
  state_signature_checks state signature public_key =
      reject_if (robot_state_signed_material_too_large rt state) "STATE_SIGNED_MATERIAL_TOO_LARGE"
      <|> reject_if (not (verify_with_public_key_b64 rt (state_message state) signature public_key))
          "STATE_SIGNATURE_INVALID"

  unfoldable pub state_signer_checks : RobotStateAssertion → String → Violation
  state_signer_checks state authenticated =
      reject_if (not (authenticated == state.edge_agent_id)) "STATE_AUTHENTICATED_EDGE_MISMATCH"
      <|> require state.signature "STATE_SIGNATURE_MISSING" λ signature.
        require (lookup authenticated edge_public_keys_by_id) "EDGE_STATE_KEY_NOT_TRUSTED"
          (state_signature_checks state signature)

  unfoldable pub state_auth_violation : RobotStateAssertion → List String → Violation
  state_auth_violation state required_wire_fields =
      reject_if (not (subset required_wire_fields state.model_fields_set))
        "STATE_REQUIRED_FIELD_MISSING"
      <|> reject_if (network_state_required_fields_missing state.network_state)
          "STATE_REQUIRED_FIELD_MISSING"
      <|> signature_algorithm_violation state.base state.signature_alg
          "STATE_SIGNATURE_ALGORITHM_MISSING" "STATE_SIGNATURE_ALGORITHM_UNSUPPORTED"
      <|> require state.authenticated_edge_agent_id "STATE_AUTHENTICATED_EDGE_MISSING"
          (state_signer_checks state)

  unfoldable pub plane_signature_checks :
      ControlPlaneReachabilityAssertion → String → String → Violation
  plane_signature_checks assertion signature public_key =
      reject_if (control_plane_reachability_signed_material_too_large rt assertion)
        "CONTROL_PLANE_SIGNED_MATERIAL_TOO_LARGE"
      <|> reject_if
          (not (verify_with_public_key_b64 rt (plane_message assertion) signature public_key))
          "CONTROL_PLANE_SIGNATURE_INVALID"

  unfoldable pub plane_signer_checks : ControlPlaneReachabilityAssertion → String → Violation
  plane_signer_checks assertion authenticated =
      reject_if (not (authenticated == assertion.edge_agent_id))
        "CONTROL_PLANE_AUTHENTICATED_EDGE_MISMATCH"
      <|> require assertion.signature "CONTROL_PLANE_SIGNATURE_MISSING" λ signature.
        require (lookup authenticated edge_public_keys_by_id) "CONTROL_PLANE_KEY_NOT_TRUSTED"
          (plane_signature_checks assertion signature)

  unfoldable pub control_plane_reachability_auth_violation :
      ControlPlaneReachabilityAssertion → List String → Violation
  control_plane_reachability_auth_violation assertion required_wire_fields =
      reject_if (not (subset required_wire_fields assertion.model_fields_set))
        "CONTROL_PLANE_REQUIRED_FIELD_MISSING"
      <|> signature_algorithm_violation assertion.base assertion.signature_alg
          "CONTROL_PLANE_SIGNATURE_ALGORITHM_MISSING"
          "CONTROL_PLANE_SIGNATURE_ALGORITHM_UNSUPPORTED"
      <|> require assertion.authenticated_edge_agent_id "CONTROL_PLANE_AUTHENTICATED_EDGE_MISSING"
          (plane_signer_checks assertion)
