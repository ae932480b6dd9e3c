-- ===== src/Examples/Policies.antt =====
-- A concrete policy, a request under it, and the theorems about the policy engine.
use rclp.Policy.Replay.{
  consume_in, has_request, consume, request_cache_durable, RequestReplayCache, key_of,
}
use rclp.Core.Base64.{
  digit, unb64, all_ascii, is_pad, b64, three_bytes, unb64_codes, canonical, codes_eq, b64decode,
  one_byte, two_bytes, undigit,
}
use rclp.Prelude.{
  is_blank, subset, contains, codes, lookup, format, ◌≡◌, ◌↔◌, ◌≤◌, refl, true, false, Option, none,
  some, [], ◌∷◌,
}
use rclp.Core.State.{
  state_auth_violation, network_state_authority_violation, state_signer_checks,
  network_state_required_fields_missing, state_signature_checks, state_time_violation,
  profile_violation,
}
use rclp.Policy.Narrow.{
  maximum_constraint_too_broad, minimum_constraint_too_broad, requested_constraint_violation,
  updated, apply_requested_constraints, policy_constraint_bounds,
}
use rclp.Core.Float.{
  within_max, float_lt, float_limit, finite_nonnegative_number, float_unit, isfinite, float_eq,
  hundred,
}
use rclp.Policy.Request.{
  requested_texts, signed_request_material_budget_violation, request_auth_violation, request_texts,
  request_time_violation, policy_digest, policy_digest_violation,
}
use rclp.Policy.Rules.{
  evaluate_network_requirements, geofence_requirements_malformed, geofence_unsatisfied,
  network_requirements_malformed, PolicyResult,
}
use rclp.Policy.Decide.{
  after_consume, evidence_violation, base_constraints, with_cache, site_violation, refusal,
  scope_violation, granted, by_request, request_violation, unless_refused, evaluate_policy_inputs,
  Issuer,
}
use rclp.Core.Budget.{budget_exceeded, signature_text_too_large}
use rclp.Core.Crypto.{verify_with_public_key_b64, canonical_json, verify_decoded}
use rclp.Core.Conformance.{network_state_malformed}
use rclp.Core.Time.{utc, aware}
use rclp.Core.Models.{
  protocol_version_violation, signature_algorithm_violation, unsigned, Policy, CapabilityRequest,
  CapabilityLease, LeaseConstraints, remote_assist, local_autonomy_only, allow,
}
use rclp.Core.Time.Fresh.{timestamp_violation, timestamps_violation}
use rclp.Core.Signer.{named_signer_violation, signature_violation, signer_violation}
use rclp.Core.SignedText.{robot_state_texts, robot_state_signed_material_too_large}
use rclp.Core.Hash.{stable_json_hash}
use rclp.Core.Leases.{capability_constraint_bound_violation}
use rclp.Core.Audit.{EventDraw}
use rclp.Policy.Decide.Spec.{IsRequested}
use rclp.Policy.Decide.Outcome.{
  IsUnused, IsGrantable, policy_allow_iff, allowed_lease_passes_bounds,
}
use rclp.Policy.Decide.Once.{Evaluation, times_allowed, allowed_once}
use rclp.Examples.{runtime, base_of, units, robot_state, lease, speed_limit, clock_time}

abbrev pub policy : Policy
policy = record {
  policy_id = "policy-1";
  capability = remote_assist;
  lease_ttl_seconds = 120;
  requirements = record {
    allowed_agents = "agent-1" ∷ [];
    allowed_edge_agents = "edge-1" ∷ [];
    allowed_robots = "robot-1" ∷ [];
    allowed_missions = "mission-9" ∷ [];
    max_speed_mps = some speed_limit;
    geofence_required = true;
    geofence_id = some "yard";
    geofence_allowed = true;
    human_operator_available = false;
    control_plane_required = false;
    control_plane_must_be_reachable = false;
    network = record {
      max_latency_ms_p95 = units 6;
      max_packet_loss_pct = units 2;
      min_uplink_mbps = units 8;
      deny_above_latency_ms_p95 = units 8;
      deny_above_packet_loss_pct = units 3;
      deny_below_uplink_mbps = units 7;
    };
  };
  fallback = record {
    on_deny = local_autonomy_only;
    on_network_degrade = local_autonomy_only;
    on_disconnect = local_autonomy_only;
    on_expiry = local_autonomy_only;
  };
}

-- Asks for a lower latency than the policy does.
abbrev pub request : CapabilityRequest
request = record {
  base = base_of "request-1" (
      "requesting_agent_id" ∷ "authenticated_agent_id" ∷ "edge_agent_id" ∷ "robot_id" ∷ "mission_id"
      ∷ "capability" ∷ "reason" ∷ "requested_duration_seconds" ∷ "requested_constraints"
      ∷ "request_nonce" ∷ "signature_alg" ∷ "signature" ∷ []);
  requesting_agent_id = "agent-1";
  authenticated_agent_id = some "agent-1";
  edge_agent_id = "edge-1";
  robot_id = "robot-1";
  mission_id = "mission-9";
  capability = remote_assist;
  reason = "pallet in the way";
  requested_duration_seconds = 60;
  requested_constraints = some (record {
    geofence_id = none;
    max_latency_ms_p95 = some (units 5);
    max_packet_loss_pct = none;
    min_uplink_mbps = none;
    fallback_on_degrade = local_autonomy_only;
    max_speed_mps = none;
    model_fields_set = "max_latency_ms_p95" ∷ [];
  });
  request_nonce = "request-nonce-1";
  signature_alg = "RCLP-DEV-ED25519";
  signature = some "AAAA";
}

abbrev pub issuer : Issuer
issuer = record {
  agent_public_keys_by_id = ("agent-1", "AAAA") ∷ [];
  edge_public_keys_by_id = ("edge-1", "AAAA") ∷ [];
  accepted_policy_digests = "sha256:0f" ∷ [];
  max_request_age_seconds = 30;
  max_state_age_seconds = 30;
}

abbrev pub cache : RequestReplayCache
cache = record { rows = some []; durable_flag = true; seen_request_nonces = [] }

abbrev pub answer : Option RequestReplayCache × PolicyResult
answer =
    evaluate_policy_inputs runtime issuer (some cache) request robot_state none policy
      (clock_time 5)

pub allows : answer.1.decision ≡ allow
unfolding codes contains subset lookup is_blank format budget_exceeded signature_text_too_large
    digit undigit b64 one_byte two_bytes three_bytes is_pad b64decode codes_eq all_ascii canonical
    unb64_codes unb64 canonical_json verify_decoded verify_with_public_key_b64 robot_state_texts
    robot_state_signed_material_too_large timestamp_violation timestamps_violation
    protocol_version_violation signature_algorithm_violation utc unsigned
    network_state_required_fields_missing profile_violation network_state_authority_violation
    state_time_violation state_signature_checks state_signer_checks state_auth_violation
    network_state_malformed finite_nonnegative_number isfinite within_max float_lt float_eq
    float_unit float_limit hundred stable_json_hash signature_violation named_signer_violation
    signer_violation has_request request_cache_durable consume_in consume request_time_violation
    requested_texts request_texts signed_request_material_budget_violation request_auth_violation
    policy_digest policy_digest_violation maximum_constraint_too_broad minimum_constraint_too_broad
    requested_constraint_violation updated apply_requested_constraints
    network_requirements_malformed geofence_requirements_malformed geofence_unsatisfied
    evaluate_network_requirements request_violation scope_violation evidence_violation
    site_violation base_constraints refusal granted unless_refused after_consume with_cache
    by_request evaluate_policy_inputs
allows = refl

again_refused :
    (evaluate_policy_inputs runtime issuer
      (some (record {
        rows = some (key_of request ∷ []);
        durable_flag = true;
        seen_request_nonces = [];
      }))
      request
      robot_state
      none
      policy
      (clock_time 5)).1.reason_code
    ≡ "REQUEST_REPLAYED"
unfolding codes contains subset lookup is_blank format budget_exceeded signature_text_too_large
    digit undigit b64 one_byte two_bytes three_bytes is_pad b64decode codes_eq all_ascii canonical
    unb64_codes unb64 canonical_json verify_decoded verify_with_public_key_b64 robot_state_texts
    robot_state_signed_material_too_large timestamp_violation timestamps_violation
    protocol_version_violation signature_algorithm_violation utc unsigned
    network_state_required_fields_missing profile_violation network_state_authority_violation
    state_time_violation state_signature_checks state_signer_checks state_auth_violation
    network_state_malformed finite_nonnegative_number isfinite within_max float_lt float_eq
    float_unit float_limit hundred stable_json_hash signature_violation named_signer_violation
    signer_violation has_request request_cache_durable consume_in consume request_time_violation
    requested_texts request_texts signed_request_material_budget_violation request_auth_violation
    policy_digest policy_digest_violation maximum_constraint_too_broad minimum_constraint_too_broad
    requested_constraint_violation updated apply_requested_constraints
    network_requirements_malformed geofence_requirements_malformed geofence_unsatisfied
    evaluate_network_requirements request_violation scope_violation evidence_violation
    site_violation base_constraints refusal granted unless_refused after_consume with_cache
    by_request evaluate_policy_inputs
again_refused = refl

late_refused :
    (evaluate_policy_inputs runtime issuer
      (some cache)
      request
      robot_state
      none
      policy
      (clock_time 90)).1.reason_code
    ≡ "REQUEST_STALE"
unfolding codes contains subset lookup is_blank format budget_exceeded signature_text_too_large
    digit undigit b64 one_byte two_bytes three_bytes is_pad b64decode codes_eq all_ascii canonical
    unb64_codes unb64 canonical_json verify_decoded verify_with_public_key_b64 robot_state_texts
    robot_state_signed_material_too_large timestamp_violation timestamps_violation
    protocol_version_violation signature_algorithm_violation utc unsigned
    network_state_required_fields_missing profile_violation network_state_authority_violation
    state_time_violation state_signature_checks state_signer_checks state_auth_violation
    network_state_malformed finite_nonnegative_number isfinite within_max float_lt float_eq
    float_unit float_limit hundred stable_json_hash signature_violation named_signer_violation
    signer_violation has_request request_cache_durable consume_in consume request_time_violation
    requested_texts request_texts signed_request_material_budget_violation request_auth_violation
    policy_digest policy_digest_violation maximum_constraint_too_broad minimum_constraint_too_broad
    requested_constraint_violation updated apply_requested_constraints
    network_requirements_malformed geofence_requirements_malformed geofence_unsatisfied
    evaluate_network_requirements request_violation scope_violation evidence_violation
    site_violation base_constraints refusal granted unless_refused after_consume with_cache
    by_request evaluate_policy_inputs
late_refused = refl

policy_allow_iff_example : (answer.1.decision ≡ allow) ↔ (
    IsRequested runtime issuer request robot_state none (clock_time 5)
    × ((c : RequestReplayCache) × (some cache ≡ some c) × IsUnused request c)
    × IsGrantable runtime issuer request robot_state none policy (clock_time 5))
policy_allow_iff_example =
    policy_allow_iff runtime issuer request robot_state none policy (clock_time 5) (some cache)

abbrev evaluation : Evaluation
evaluation = record {
  issuer = issuer;
  request = request;
  state = robot_state;
  plane = none;
  policy = policy;
  now = clock_time 5;
}

once : times_allowed runtime (key_of request) (some cache) (evaluation ∷ evaluation ∷ []) ≡ 1
unfolding codes contains subset lookup is_blank format budget_exceeded signature_text_too_large
    digit undigit b64 one_byte two_bytes three_bytes is_pad b64decode codes_eq all_ascii canonical
    unb64_codes unb64 canonical_json verify_decoded verify_with_public_key_b64 robot_state_texts
    robot_state_signed_material_too_large timestamp_violation timestamps_violation
    protocol_version_violation signature_algorithm_violation utc unsigned
    network_state_required_fields_missing profile_violation network_state_authority_violation
    state_time_violation state_signature_checks state_signer_checks state_auth_violation
    network_state_malformed finite_nonnegative_number isfinite within_max float_lt float_eq
    float_unit float_limit hundred stable_json_hash signature_violation named_signer_violation
    signer_violation has_request request_cache_durable consume_in consume request_time_violation
    requested_texts request_texts signed_request_material_budget_violation request_auth_violation
    policy_digest policy_digest_violation maximum_constraint_too_broad minimum_constraint_too_broad
    requested_constraint_violation updated apply_requested_constraints
    network_requirements_malformed geofence_requirements_malformed geofence_unsatisfied
    evaluate_network_requirements request_violation scope_violation evidence_violation
    site_violation base_constraints refusal granted unless_refused after_consume with_cache
    by_request evaluate_policy_inputs
once = refl

allowed_once_example :
    times_allowed runtime (key_of request) (some cache) (evaluation ∷ evaluation ∷ []) ≤ 1
allowed_once_example =
    allowed_once runtime (key_of request) (some cache) (evaluation ∷ evaluation ∷ [])

-- The lease of the concrete gate with the latency that was asked for.
abbrev pub narrow : LeaseConstraints
narrow = record (lease.constraints) {
  max_latency_ms_p95 = some (units 5);
  model_fields_set = "max_latency_ms_p95" ∷ lease.constraints.model_fields_set;
}

abbrev pub narrow_lease : CapabilityLease
narrow_lease = record lease { constraints = narrow }

pub narrow_given : some narrow_lease.constraints ≡ answer.1.constraints
unfolding codes contains subset lookup is_blank format budget_exceeded signature_text_too_large
    digit undigit b64 one_byte two_bytes three_bytes is_pad b64decode codes_eq all_ascii canonical
    unb64_codes unb64 canonical_json verify_decoded verify_with_public_key_b64 robot_state_texts
    robot_state_signed_material_too_large timestamp_violation timestamps_violation
    protocol_version_violation signature_algorithm_violation utc unsigned
    network_state_required_fields_missing profile_violation network_state_authority_violation
    state_time_violation state_signature_checks state_signer_checks state_auth_violation
    network_state_malformed finite_nonnegative_number isfinite within_max float_lt float_eq
    float_unit float_limit hundred stable_json_hash signature_violation named_signer_violation
    signer_violation has_request request_cache_durable consume_in consume request_time_violation
    requested_texts request_texts signed_request_material_budget_violation request_auth_violation
    policy_digest policy_digest_violation maximum_constraint_too_broad minimum_constraint_too_broad
    requested_constraint_violation updated apply_requested_constraints
    network_requirements_malformed geofence_requirements_malformed geofence_unsatisfied
    evaluate_network_requirements request_violation scope_violation evidence_violation
    site_violation base_constraints refusal granted unless_refused after_consume with_cache
    by_request evaluate_policy_inputs
narrow_given = refl

allowed_lease_passes_bounds_example :
    capability_constraint_bound_violation narrow_lease (some (policy_constraint_bounds policy))
    ≡ none
allowed_lease_passes_bounds_example =
    allowed_lease_passes_bounds runtime issuer request robot_state none policy (clock_time 5)
      (some cache) narrow_lease allows refl narrow_given

abbrev draw : EventDraw
draw = record { message_hex = "b1"; audit_hex = "b2"; created_at = aware (clock_time 5) }
