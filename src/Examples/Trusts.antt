-- ===== src/Examples/Trusts.antt =====
-- Attestations, fallback declarations and issued leases, signed with a concrete key pair.
use rclp.Policy.Replay.{consume_in, has_request, consume, request_cache_durable}
use rclp.Core.Base64.{
  digit, unb64, all_ascii, is_pad, b64, three_bytes, unb64_codes, canonical, codes_eq, b64decode,
  one_byte, two_bytes, undigit,
}
use rclp.Prelude.{
  is_blank, subset, contains, codes, lookup, format, ℕ, zero, suc, ◌+◌, ◌≡◌, ◌↔◌, ◌≤◌, ◌<◌, refl,
  false, none, some, inr, List, [], ◌∷◌, arith,
}
use rclp.Core.State.{
  state_auth_violation, network_state_authority_violation, state_signer_checks,
  network_state_required_fields_missing, state_signature_checks, state_time_violation,
  profile_violation,
}
use rclp.Policy.Narrow.{
  maximum_constraint_too_broad, minimum_constraint_too_broad, requested_constraint_violation,
  updated, apply_requested_constraints,
}
use rclp.Core.Float.{
  within_max, float_lt, float_limit, finite_nonnegative_number, float_unit, isfinite, float_eq,
  hundred,
}
use rclp.Policy.Request.{
  requested_texts, signed_request_material_budget_violation, request_auth_violation, request_texts,
  request_time_violation, policy_digest, policy_digest_violation,
}
use rclp.Core.Attestation.{
  pinned_violation, attestation_signed_material_too_large, attestation_time_violation,
  attestation_trust_violation, tier_violation, normalized, attestation_texts,
  attestation_auth_violation, Trust,
}
use rclp.Policy.Rules.{
  evaluate_network_requirements, geofence_requirements_malformed, geofence_unsatisfied,
  network_requirements_malformed,
}
use rclp.Core.Keys.{sign, ascii_text, public_key_b64, DemoKeyPair, IsEd25519}
use rclp.Core.Fallback.{
  fallback_texts, prepare_fallback_declaration, sign_fallback_declaration,
  fallback_declaration_signed_material_too_large, fallback_declaration_auth_violation,
  signed_fallback_accepted,
}
use rclp.Policy.Decide.{
  after_consume, evidence_violation, base_constraints, with_cache, site_violation, refusal,
  scope_violation, granted, by_request, request_violation, unless_refused, evaluate_policy_inputs,
}
use rclp.Core.Budget.{budget_exceeded, signature_text_too_large}
use rclp.Core.Crypto.{verify_with_public_key_b64, canonical_json, verify_decoded}
use rclp.Core.Conformance.{network_state_malformed}
use rclp.Core.Time.{utc, aware, seconds, max_wall}
use rclp.Core.Models.{
  protocol_version_violation, signature_algorithm_violation, unsigned, FallbackDeclaration,
  CapabilityLease, AgentAttestation, local_autonomy_only, central_agent, production,
}
use rclp.Core.Time.Fresh.{timestamp_violation, timestamps_violation}
use rclp.Core.Signer.{named_signer_violation, signature_violation, signer_violation}
use rclp.Core.SignedText.{robot_state_texts, robot_state_signed_material_too_large}
use rclp.Core.Hash.{stable_json_hash}
use rclp.Core.Base64.Inverse.{AreBytes}
use rclp.Core.Issue.{
  LeaseDraw, utc_now, with_signature, unsigned_lease, issue_lease, issue_violation,
}
use rclp.Core.Issue.Spec.{issued_in_force}
use rclp.Core.Leases.{lease_time_violation}
use rclp.Core.Attestation.Accepted.{IsTrusted, trust_iff}
use rclp.Examples.{runtime, base_of, lease, clock_time}
use rclp.Examples.Policies.{request}

abbrev zeros : ℕ → List ℕ
zeros zero = []
zeros (suc n) = 0 ∷ zeros n

-- A key of 64 zeros, whose signatures the concrete runtime accepts.
abbrev pub pair : DemoKeyPair
pair = record { public_key = zeros 64; private_sign = λ message. zeros 64 }

zeros-AreBytes : (n : ℕ) → AreBytes (zeros n)
zeros-AreBytes zero = tt
zeros-AreBytes (suc n) = (omega arith, zeros-AreBytes n)

pub pair-IsEd25519 : IsEd25519 runtime pair
pair-IsEd25519 = record {
  key_bytes = zeros-AreBytes 64;
  signature_size = λ m. refl;
  signature_bytes = λ m. zeros-AreBytes 64;
  accepted = λ m. refl;
}

abbrev declaration : FallbackDeclaration
declaration = record {
  base = base_of "fallback-1" ("robot_id" ∷ []);
  robot_id = "robot-1";
  edge_agent_id = "edge-1";
  mission_id = "mission-9";
  trigger = "NETWORK_DETACHED";
  fallback_action = local_autonomy_only;
  declared_by = "edge-1";
  authenticated_declared_by = none;
  lease_id = some "lease-1";
  decision_id = none;
  revocation_id = none;
  signature_alg = "none";
  signature = none;
}

small_declaration :
    fallback_declaration_signed_material_too_large runtime
      (sign_fallback_declaration runtime declaration pair none)
    ≡ false
unfolding codes ascii_text contains format lookup digit b64 budget_exceeded signature_text_too_large
    sign public_key_b64 canonical_json unsigned fallback_texts
    fallback_declaration_signed_material_too_large prepare_fallback_declaration
    sign_fallback_declaration
small_declaration = refl

known_declarer : lookup "edge-1" (("edge-1", public_key_b64 pair) ∷ []) ≡ some (public_key_b64 pair)
unfolding lookup
known_declarer = refl

signed_fallback_accepted_example :
    fallback_declaration_auth_violation runtime
      (sign_fallback_declaration runtime declaration pair none)
      (("edge-1", public_key_b64 pair) ∷ [])
    ≡ none
signed_fallback_accepted_example =
    signed_fallback_accepted runtime declaration pair (("edge-1", public_key_b64 pair) ∷ [])
      pair-IsEd25519 known_declarer small_declaration

abbrev pub draw : LeaseDraw
draw = record { now = 907_200_000_000_000; message_hex = "c1"; lease_hex = "c2"; nonce_hex = "c3" }

abbrev made : CapabilityLease
made =
    with_signature runtime pair
      (unsigned_lease draw request lease.constraints "issuer-1" 30 "policy-1" "sha256:0f")

issues :
    issue_lease runtime draw request lease.constraints "issuer-1" pair 30 "policy-1" "sha256:0f"
    ≡ inr made
unfolding is_blank codes issue_violation issue_lease max_wall
issues = refl

in_range : (clock_time 5).wall + seconds 30 ≤ max_wall
unfolding max_wall
in_range = omega arith

after_issue : utc (utc_now draw.now) ≤ utc (clock_time 5)
unfolding utc
after_issue = omega arith

young : utc (clock_time 5) ≤ utc (utc_now draw.now) + seconds 600
unfolding utc
young = omega arith

issued_in_force_example :
    (lease_time_violation made (aware (clock_time 5)) 600 600 30 ≡ none)
    ↔ (utc (clock_time 5) < utc (utc_now draw.now) + seconds 30)
issued_in_force_example =
    issued_in_force runtime draw request lease.constraints "issuer-1" pair 30 "policy-1" "sha256:0f"
      made (clock_time 5) 600 600 30 issues after_issue in_range young (omega arith)

abbrev attestation : AgentAttestation
attestation = record {
  base = base_of "attestation-1" ("signature_alg" ∷ "trust_tier" ∷ []);
  agent_id = "agent-1";
  authenticated_agent_id = some "agent-1";
  kind = central_agent;
  manifest_digest = "sha256:ab";
  public_key_id = "key-1";
  trust_tier = production;
  revoked = false;
  signature_alg = "RCLP-DEV-ED25519";
  signature = some "AAAA";
}

abbrev trust : Trust
trust = record {
  agent_public_keys_by_id = ("agent-1", "AAAA") ∷ [];
  public_key_ids_by_agent_id = some (("agent-1", "key-1") ∷ []);
  accepted_trust_tiers = some ("production" ∷ []);
  manifest_digests_by_agent_id = some (("agent-1", "sha256:ab") ∷ []);
  max_attestation_age_seconds = 300;
}

trusted : attestation_trust_violation runtime attestation trust (clock_time 5) ≡ none
unfolding codes contains subset lookup is_blank format budget_exceeded signature_text_too_large
    digit undigit b64 one_byte two_bytes three_bytes is_pad b64decode codes_eq all_ascii canonical
    unb64_codes unb64 canonical_json verify_decoded verify_with_public_key_b64 robot_state_texts
    robot_state_signed_material_too_large timestamp_violation timestamps_violation
    protocol_version_violation signature_algorithm_violation utc unsigned
    network_state_required_fields_missing profile_violation network_state_authority_violation
    state_time_violation state_signature_checks state_signer_checks state_auth_violation
    network_state_malformed finite_nonnegative_number isfinite within_max float_lt float_eq
    float_unit float_limit hundred stable_json_hash signature_violation named_signer_violation
    signer_violation has_request request_cache_durable consume_in consume request_time_violation
    requested_texts request_texts signed_request_material_budget_violation request_auth_violation
    policy_digest policy_digest_violation maximum_constraint_too_broad minimum_constraint_too_broad
    requested_constraint_violation updated apply_requested_constraints
    network_requirements_malformed geofence_requirements_malformed geofence_unsatisfied
    evaluate_network_requirements request_violation scope_violation evidence_violation
    site_violation base_constraints refusal granted unless_refused after_consume with_cache
    by_request evaluate_policy_inputs normalized attestation_texts
    attestation_signed_material_too_large attestation_auth_violation attestation_time_violation
    pinned_violation tier_violation attestation_trust_violation
trusted = refl

trust_iff_example :
    (attestation_trust_violation runtime attestation trust (clock_time 5) ≡ none)
    ↔ IsTrusted runtime attestation trust (clock_time 5)
trust_iff_example = trust_iff runtime attestation (clock_time 5) trust
