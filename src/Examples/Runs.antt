-- ===== src/Examples/Runs.antt =====
-- `evaluate` on the concrete gate: a first use, and the same command again.
use rclp.Core.Float.{
  float_unit, float_lt, float_eq, isfinite, within_max, finite_nonnegative_number, hundred,
  bit_length, float_limit, round_bits, float_of_int,
}
use rclp.Core.Value.{get_field, field_names, numeric, value_eq, items_eq, fields_eq, to_real}
use rclp.Core.Time.{max_wall, utc}
use rclp.Core.Budget.{budget_exceeded, signature_text_too_large}
use rclp.Core.Base64.{
  digit, undigit, b64, one_byte, two_bytes, three_bytes, is_pad, b64decode, codes_eq, all_ascii,
  canonical, unb64_codes, unb64,
}
use rclp.Core.Crypto.{canonical_json, verify_decoded, verify_with_public_key_b64}
use rclp.Core.SignedText.{
  lease_texts, lease_signed_material_too_large, robot_state_texts,
  robot_state_signed_material_too_large, command_texts,
}
use rclp.Core.Leases.{
  lease_window_violation, lease_timestamps_violation, lease_time_violation, verify_lease_signature,
  lease_signature_algorithm_violation, lease_matches_context, capability_constraints_missing,
  max_field_exceeds_policy, min_field_exceeds_policy, fallback_exceeds_policy,
  geofence_exceeds_policy, capability_constraints_exceed_bounds, requirement_checks, bound_checks,
  capability_constraint_requirement_violation, capability_constraint_bound_violation,
}
use rclp.Core.State.{
  network_state_required_fields_missing, profile_violation, network_state_authority_violation,
  state_time_violation, state_signature_checks, state_signer_checks, state_auth_violation,
}
use rclp.Core.Conformance.{
  returns, single_issuer_key, issuer_key_registry, capability_scope_violation, any_blank,
  lease_policy_provenance_violation, lease_requires_current_state, lease_constraints_malformed,
  network_state_malformed, geofence_violation, lease_state_violation, has_unsupported,
  speeds_conflict, present, raw_speed, speed_verdict, limited_speed, speed_checks, payload_checks,
  validate_command_payload_against_constraints,
}
use rclp.Core.Time.Fresh.{timestamp_violation, timestamps_violation}
use rclp.Core.Models.{protocol_version_violation, signature_algorithm_violation}
use rclp.Core.Models.{unsigned}
use rclp.Core.Conformance.Validate.{
  signature_checks, issuer_keys, issuer_violation, grant_violation, state_violation, before_payload,
  validate_lease_for_command,
}
use rclp.Gate.Replay.{
  durable, has_key, insert_all, transact, stored, memory_seen, remember_in, remember, authorize_in,
  remember_authorized_use, contained_in, contains_command,
}
use rclp.Gate.Payload.{
  int_bytes, estimated_payload_bytes, push_items, push_fields, push_children, visit, walk,
  command_payload_budget, command_payload_budget_violation,
}
use rclp.Gate.State.{
  record_audit, newest_audit_id, local_fallback_action, fresh_base, sign_fallback, emit_fallback,
  bounded_diagnostic_text,
}
use rclp.Gate.Auth.{
  signed_command_material_budget_violation, command_time_violation, command_signature_checks,
  command_key_checks, command_agent_checks, command_auth_violation,
}
use rclp.Gate.Denials.{
  matched, matching_authenticated_revocation, command_correlation_id, denial_can_emit_fallback,
  fallback_action_for_denial, denial_declaration, with_state, rejected_entry, untrusted_entry,
}
use rclp.Gate.Reject.{finish_rejection, reject_command, reject_local_edge_mismatch}
use rclp.Gate.Evaluate.{
  use_of_command, local_edge_context_mismatch, allowed_payload, allowed_refs, allowed_entry,
  allow_if_recorded, refuse_and_remember, by_verdict, with_lease, authenticated, by_auth, evaluate,
}
use rclp.Prelude.{
  ◌≡◌, refl, true, false, none, some, [], contains, subset, lookup, insert, keys, codes, is_blank,
  format,
}
use rclp.Gate.Evaluate.Safety.{was_allowed}
use rclp.Examples.{
  runtime, gate, fresh_gate, config, command, payload, lease, robot_state, clock_time,
}

pub use_allowed :
    was_allowed
      (evaluate runtime gate fresh_gate command
        (some lease)
        (some robot_state)
        (clock_time 5)
        (clock_time 5)).1
    ≡ true
unfolding contains subset lookup insert keys codes is_blank format float_unit float_lt float_eq
    isfinite within_max finite_nonnegative_number hundred bit_length float_limit round_bits
    float_of_int get_field field_names numeric value_eq items_eq fields_eq to_real max_wall utc
    budget_exceeded signature_text_too_large digit undigit b64 one_byte two_bytes three_bytes is_pad
    b64decode codes_eq all_ascii canonical unb64_codes unb64 canonical_json verify_decoded
    verify_with_public_key_b64 lease_texts lease_signed_material_too_large robot_state_texts
    robot_state_signed_material_too_large command_texts lease_window_violation
    lease_timestamps_violation lease_time_violation verify_lease_signature
    lease_signature_algorithm_violation lease_matches_context capability_constraints_missing
    max_field_exceeds_policy min_field_exceeds_policy fallback_exceeds_policy
    geofence_exceeds_policy capability_constraints_exceed_bounds requirement_checks bound_checks
    capability_constraint_requirement_violation capability_constraint_bound_violation
    network_state_required_fields_missing profile_violation network_state_authority_violation
    state_time_violation state_signature_checks state_signer_checks state_auth_violation
    single_issuer_key issuer_key_registry capability_scope_violation any_blank
    lease_policy_provenance_violation lease_requires_current_state lease_constraints_malformed
    network_state_malformed geofence_violation lease_state_violation has_unsupported speeds_conflict
    present raw_speed speed_verdict limited_speed speed_checks payload_checks
    validate_command_payload_against_constraints timestamp_violation timestamps_violation
    protocol_version_violation signature_algorithm_violation unsigned signature_checks issuer_keys
    issuer_violation grant_violation state_violation before_payload validate_lease_for_command
    has_key insert_all transact stored memory_seen remember_in remember authorize_in
    remember_authorized_use contained_in contains_command int_bytes estimated_payload_bytes
    push_items push_fields push_children visit walk command_payload_budget
    command_payload_budget_violation record_audit newest_audit_id local_fallback_action fresh_base
    sign_fallback emit_fallback bounded_diagnostic_text signed_command_material_budget_violation
    command_time_violation command_signature_checks command_key_checks command_agent_checks
    command_auth_violation matched matching_authenticated_revocation command_correlation_id
    denial_can_emit_fallback fallback_action_for_denial denial_declaration with_state rejected_entry
    untrusted_entry finish_rejection reject_command reject_local_edge_mismatch
    local_edge_context_mismatch allowed_payload allowed_refs allowed_entry allow_if_recorded
    refuse_and_remember by_verdict with_lease authenticated by_auth evaluate
use_allowed = refl

reuse_reason :
    (evaluate runtime gate
      (evaluate runtime gate fresh_gate command
        (some lease)
        (some robot_state)
        (clock_time 5)
        (clock_time 5)).0
      command
      (some lease)
      (some robot_state)
      (clock_time 6)
      (clock_time 6)).1
    ≡ returns (record {
      allowed = false;
      reason_code = "COMMAND_REPLAYED";
      audit_id = some "audit_a0";
      fallback_action = none;
      fallback_declaration = none;
    })
unfolding contains subset lookup insert keys codes is_blank format float_unit float_lt float_eq
    isfinite within_max finite_nonnegative_number hundred bit_length float_limit round_bits
    float_of_int get_field field_names numeric value_eq items_eq fields_eq to_real max_wall utc
    budget_exceeded signature_text_too_large digit undigit b64 one_byte two_bytes three_bytes is_pad
    b64decode codes_eq all_ascii canonical unb64_codes unb64 canonical_json verify_decoded
    verify_with_public_key_b64 lease_texts lease_signed_material_too_large robot_state_texts
    robot_state_signed_material_too_large command_texts lease_window_violation
    lease_timestamps_violation lease_time_violation verify_lease_signature
    lease_signature_algorithm_violation lease_matches_context capability_constraints_missing
    max_field_exceeds_policy min_field_exceeds_policy fallback_exceeds_policy
    geofence_exceeds_policy capability_constraints_exceed_bounds requirement_checks bound_checks
    capability_constraint_requirement_violation capability_constraint_bound_violation
    network_state_required_fields_missing profile_violation network_state_authority_violation
    state_time_violation state_signature_checks state_signer_checks state_auth_violation
    single_issuer_key issuer_key_registry capability_scope_violation any_blank
    lease_policy_provenance_violation lease_requires_current_state lease_constraints_malformed
    network_state_malformed geofence_violation lease_state_violation has_unsupported speeds_conflict
    present raw_speed speed_verdict limited_speed speed_checks payload_checks
    validate_command_payload_against_constraints timestamp_violation timestamps_violation
    protocol_version_violation signature_algorithm_violation unsigned signature_checks issuer_keys
    issuer_violation grant_violation state_violation before_payload validate_lease_for_command
    has_key insert_all transact stored memory_seen remember_in remember authorize_in
    remember_authorized_use contained_in contains_command int_bytes estimated_payload_bytes
    push_items push_fields push_children visit walk command_payload_budget
    command_payload_budget_violation record_audit newest_audit_id local_fallback_action fresh_base
    sign_fallback emit_fallback bounded_diagnostic_text signed_command_material_budget_violation
    command_time_violation command_signature_checks command_key_checks command_agent_checks
    command_auth_violation matched matching_authenticated_revocation command_correlation_id
    denial_can_emit_fallback fallback_action_for_denial denial_declaration with_state rejected_entry
    untrusted_entry finish_rejection reject_command reject_local_edge_mismatch
    local_edge_context_mismatch allowed_payload allowed_refs allowed_entry allow_if_recorded
    refuse_and_remember by_verdict with_lease authenticated by_auth evaluate
reuse_reason = refl

pub lease_accepted :
    validate_lease_for_command runtime config
      (some lease)
      (use_of_command command)
      (some robot_state)
      []
      (clock_time 5)
    ≡ returns (true, "LEASE_VALID")
unfolding contains subset lookup insert keys codes is_blank format float_unit float_lt float_eq
    isfinite within_max finite_nonnegative_number hundred bit_length float_limit round_bits
    float_of_int get_field field_names numeric value_eq items_eq fields_eq to_real max_wall utc
    budget_exceeded signature_text_too_large digit undigit b64 one_byte two_bytes three_bytes is_pad
    b64decode codes_eq all_ascii canonical unb64_codes unb64 canonical_json verify_decoded
    verify_with_public_key_b64 lease_texts lease_signed_material_too_large robot_state_texts
    robot_state_signed_material_too_large command_texts lease_window_violation
    lease_timestamps_violation lease_time_violation verify_lease_signature
    lease_signature_algorithm_violation lease_matches_context capability_constraints_missing
    max_field_exceeds_policy min_field_exceeds_policy fallback_exceeds_policy
    geofence_exceeds_policy capability_constraints_exceed_bounds requirement_checks bound_checks
    capability_constraint_requirement_violation capability_constraint_bound_violation
    network_state_required_fields_missing profile_violation network_state_authority_violation
    state_time_violation state_signature_checks state_signer_checks state_auth_violation
    single_issuer_key issuer_key_registry capability_scope_violation any_blank
    lease_policy_provenance_violation lease_requires_current_state lease_constraints_malformed
    network_state_malformed geofence_violation lease_state_violation has_unsupported speeds_conflict
    present raw_speed speed_verdict limited_speed speed_checks payload_checks
    validate_command_payload_against_constraints timestamp_violation timestamps_violation
    protocol_version_violation signature_algorithm_violation unsigned signature_checks issuer_keys
    issuer_violation grant_violation state_violation before_payload validate_lease_for_command
    has_key insert_all transact stored memory_seen remember_in remember authorize_in
    remember_authorized_use contained_in contains_command int_bytes estimated_payload_bytes
    push_items push_fields push_children visit walk command_payload_budget
    command_payload_budget_violation record_audit newest_audit_id local_fallback_action fresh_base
    sign_fallback emit_fallback bounded_diagnostic_text signed_command_material_budget_violation
    command_time_violation command_signature_checks command_key_checks command_agent_checks
    command_auth_violation matched matching_authenticated_revocation command_correlation_id
    denial_can_emit_fallback fallback_action_for_denial denial_declaration with_state rejected_entry
    untrusted_entry finish_rejection reject_command reject_local_edge_mismatch
    local_edge_context_mismatch allowed_payload allowed_refs allowed_entry allow_if_recorded
    refuse_and_remember by_verdict with_lease authenticated by_auth evaluate
lease_accepted = refl

pub payload_passes :
    validate_command_payload_against_constraints lease (some payload)
    ≡ returns (true, "LEASE_VALID")
unfolding contains subset lookup insert keys codes is_blank format float_unit float_lt float_eq
    isfinite within_max finite_nonnegative_number hundred bit_length float_limit round_bits
    float_of_int get_field field_names numeric value_eq items_eq fields_eq to_real max_wall utc
    budget_exceeded signature_text_too_large digit undigit b64 one_byte two_bytes three_bytes is_pad
    b64decode codes_eq all_ascii canonical unb64_codes unb64 canonical_json verify_decoded
    verify_with_public_key_b64 lease_texts lease_signed_material_too_large robot_state_texts
    robot_state_signed_material_too_large command_texts lease_window_violation
    lease_timestamps_violation lease_time_violation verify_lease_signature
    lease_signature_algorithm_violation lease_matches_context capability_constraints_missing
    max_field_exceeds_policy min_field_exceeds_policy fallback_exceeds_policy
    geofence_exceeds_policy capability_constraints_exceed_bounds requirement_checks bound_checks
    capability_constraint_requirement_violation capability_constraint_bound_violation
    network_state_required_fields_missing profile_violation network_state_authority_violation
    state_time_violation state_signature_checks state_signer_checks state_auth_violation
    single_issuer_key issuer_key_registry capability_scope_violation any_blank
    lease_policy_provenance_violation lease_requires_current_state lease_constraints_malformed
    network_state_malformed geofence_violation lease_state_violation has_unsupported speeds_conflict
    present raw_speed speed_verdict limited_speed speed_checks payload_checks
    validate_command_payload_against_constraints timestamp_violation timestamps_violation
    protocol_version_violation signature_algorithm_violation unsigned signature_checks issuer_keys
    issuer_violation grant_violation state_violation before_payload validate_lease_for_command
    has_key insert_all transact stored memory_seen remember_in remember authorize_in
    remember_authorized_use contained_in contains_command int_bytes estimated_payload_bytes
    push_items push_fields push_children visit walk command_payload_budget
    command_payload_budget_violation record_audit newest_audit_id local_fallback_action fresh_base
    sign_fallback emit_fallback bounded_diagnostic_text signed_command_material_budget_violation
    command_time_violation command_signature_checks command_key_checks command_agent_checks
    command_auth_violation matched matching_authenticated_revocation command_correlation_id
    denial_can_emit_fallback fallback_action_for_denial denial_declaration with_state rejected_entry
    untrusted_entry finish_rejection reject_command reject_local_edge_mismatch
    local_edge_context_mismatch allowed_payload allowed_refs allowed_entry allow_if_recorded
    refuse_and_remember by_verdict with_lease authenticated by_auth evaluate
payload_passes = refl

cache_durable : durable fresh_gate.replay ≡ true
unfolding durable
cache_durable = refl
