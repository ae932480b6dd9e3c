-- ===== src/Examples/States.antt =====
-- The checks of a control plane, and of a lease against a state, on concrete messages.
use rclp.Core.Float.{
  finite_nonnegative_number, isfinite, within_max, float_lt, float_eq, float_unit, float_limit,
  hundred,
}
use rclp.Core.Budget.{budget_exceeded, signature_text_too_large}
use rclp.Core.Base64.{
  digit, undigit, b64, one_byte, two_bytes, three_bytes, is_pad, b64decode, codes_eq, all_ascii,
  canonical, unb64_codes, unb64,
}
use rclp.Core.Crypto.{canonical_json, verify_decoded, verify_with_public_key_b64}
use rclp.Core.SignedText.{
  lease_texts, lease_signed_material_too_large, robot_state_texts,
  robot_state_signed_material_too_large, control_plane_texts,
  control_plane_reachability_signed_material_too_large, command_texts, revocation_texts,
  signed_revocation_material_budget_violation,
}
use rclp.Core.Time.Fresh.{timestamp_violation, timestamps_violation}
use rclp.Core.Models.{protocol_version_violation, signature_algorithm_violation}
use rclp.Core.Time.{max_wall, utc}
use rclp.Core.Models.{unsigned}
use rclp.Core.State.{
  network_state_required_fields_missing, profile_violation, network_state_authority_violation,
  state_time_violation, control_plane_reachability_time_violation, state_signature_checks,
  state_signer_checks, state_auth_violation, plane_signature_checks, plane_signer_checks,
  control_plane_reachability_auth_violation,
}
use rclp.Core.Conformance.{
  single_issuer_key, issuer_key_registry, capability_scope_violation, any_blank,
  lease_policy_provenance_violation, lease_requires_current_state, lease_constraints_malformed,
  network_state_malformed, geofence_violation, lease_state_violation, validate_lease_against_state,
  has_unsupported, speeds_conflict, present, raw_speed, speed_verdict, limited_speed, speed_checks,
  payload_checks, validate_command_payload_against_constraints,
}
use rclp.Prelude.{
  ◌≡◌, refl, true, none, some, [], ◌∷◌, contains, subset, lookup, insert, keys, codes, is_blank,
  format,
}
use rclp.Examples.{base_of}
use rclp.Examples.{runtime, lease, robot_state, clock_time}
use rclp.Core.Models.{ControlPlaneReachabilityAssertion, reachable_plane}
use rclp.Core.Time.{aware}

abbrev plane : ControlPlaneReachabilityAssertion
plane = record {
  base = base_of "plane-1" ("signature_alg" ∷ []);
  edge_agent_id = "edge-1";
  authenticated_edge_agent_id = some "edge-1";
  robot_id = "robot-1";
  mission_id = "mission-9";
  reachability = reachable_plane;
  reachable = true;
  observed_at = aware (clock_time 0);
  measurement_window_seconds = 5;
  source = "probe";
  signature_alg = "RCLP-DEV-ED25519";
  signature = some "AAAA";
}

plane_passes :
    control_plane_reachability_auth_violation runtime
      (("edge-1", "AAAA") ∷ [])
      plane
      ("signature_alg" ∷ [])
    ≡ none
unfolding finite_nonnegative_number isfinite within_max float_lt float_eq float_unit float_limit
    hundred contains subset lookup insert keys codes is_blank format budget_exceeded
    signature_text_too_large digit undigit b64 one_byte two_bytes three_bytes is_pad b64decode
    codes_eq all_ascii canonical unb64_codes unb64 canonical_json verify_decoded
    verify_with_public_key_b64 lease_texts lease_signed_material_too_large robot_state_texts
    robot_state_signed_material_too_large control_plane_texts
    control_plane_reachability_signed_material_too_large command_texts revocation_texts
    signed_revocation_material_budget_violation timestamp_violation timestamps_violation
    protocol_version_violation signature_algorithm_violation max_wall utc unsigned
    network_state_required_fields_missing profile_violation network_state_authority_violation
    state_time_violation control_plane_reachability_time_violation state_signature_checks
    state_signer_checks state_auth_violation plane_signature_checks plane_signer_checks
    control_plane_reachability_auth_violation single_issuer_key issuer_key_registry
    capability_scope_violation any_blank lease_policy_provenance_violation
    lease_requires_current_state lease_constraints_malformed network_state_malformed
    geofence_violation lease_state_violation validate_lease_against_state has_unsupported
    speeds_conflict present raw_speed speed_verdict limited_speed speed_checks payload_checks
    validate_command_payload_against_constraints
plane_passes = refl

plane_old :
    control_plane_reachability_time_violation plane (clock_time 90) 30
    ≡ some "CONTROL_PLANE_STATE_STALE"
unfolding finite_nonnegative_number isfinite within_max float_lt float_eq float_unit float_limit
    hundred contains subset lookup insert keys codes is_blank format budget_exceeded
    signature_text_too_large digit undigit b64 one_byte two_bytes three_bytes is_pad b64decode
    codes_eq all_ascii canonical unb64_codes unb64 canonical_json verify_decoded
    verify_with_public_key_b64 lease_texts lease_signed_material_too_large robot_state_texts
    robot_state_signed_material_too_large control_plane_texts
    control_plane_reachability_signed_material_too_large command_texts revocation_texts
    signed_revocation_material_budget_violation timestamp_violation timestamps_violation
    protocol_version_violation signature_algorithm_violation max_wall utc unsigned
    network_state_required_fields_missing profile_violation network_state_authority_violation
    state_time_violation control_plane_reachability_time_violation state_signature_checks
    state_signer_checks state_auth_violation plane_signature_checks plane_signer_checks
    control_plane_reachability_auth_violation single_issuer_key issuer_key_registry
    capability_scope_violation any_blank lease_policy_provenance_violation
    lease_requires_current_state lease_constraints_malformed network_state_malformed
    geofence_violation lease_state_violation validate_lease_against_state has_unsupported
    speeds_conflict present raw_speed speed_verdict limited_speed speed_checks payload_checks
    validate_command_payload_against_constraints
plane_old = refl

state_suits : validate_lease_against_state lease robot_state ≡ (true, "LEASE_VALID")
unfolding finite_nonnegative_number isfinite within_max float_lt float_eq float_unit float_limit
    hundred contains subset lookup insert keys codes is_blank format budget_exceeded
    signature_text_too_large digit undigit b64 one_byte two_bytes three_bytes is_pad b64decode
    codes_eq all_ascii canonical unb64_codes unb64 canonical_json verify_decoded
    verify_with_public_key_b64 lease_texts lease_signed_material_too_large robot_state_texts
    robot_state_signed_material_too_large control_plane_texts
    control_plane_reachability_signed_material_too_large command_texts revocation_texts
    signed_revocation_material_budget_violation timestamp_violation timestamps_violation
    protocol_version_violation signature_algorithm_violation max_wall utc unsigned
    network_state_required_fields_missing profile_violation network_state_authority_violation
    state_time_violation control_plane_reachability_time_violation state_signature_checks
    state_signer_checks state_auth_violation plane_signature_checks plane_signer_checks
    control_plane_reachability_auth_violation single_issuer_key issuer_key_registry
    capability_scope_violation any_blank lease_policy_provenance_violation
    lease_requires_current_state lease_constraints_malformed network_state_malformed
    geofence_violation lease_state_violation validate_lease_against_state has_unsupported
    speeds_conflict present raw_speed speed_verdict limited_speed speed_checks payload_checks
    validate_command_payload_against_constraints
state_suits = refl
