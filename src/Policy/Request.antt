-- ===== src/Policy/Request.antt =====
-- policy.py: age and authentication of a request, and whether its policy is accepted.
use rclp.Prelude.{
  ℕ, Bool, true, not, Option, none, some, String, List, [], ◌∷◌, subset, contains, is_empty,
  Violation, reject_if, ◌<|>◌, if◌then◌else◌,
}
use rclp.Core.Time.{Instant}
use rclp.Core.Time.Fresh.{timestamp_violation}
use rclp.Core.Models.{
  CapabilityRequest, LeaseConstraints, Policy, request_message, capability_text, fallback_text,
  signature_algorithm_violation,
}
use rclp.Core.Runtime.{Runtime}
use rclp.Core.Hash.{stable_json_hash}
use rclp.Core.Budget.{budget_exceeded, signature_text_too_large}
use rclp.Core.SignedText.{float_text}
use rclp.Core.Signer.{Signed, Reasons, signer_violation}

abbrev pub request_clock_skew_seconds : ℕ
request_clock_skew_seconds = 30

abbrev pub capability_request_required_wire_fields : List String
capability_request_required_wire_fields = "requested_duration_seconds" ∷ []

-- `_request_time_violation`: no skew on the side of age.
unfoldable pub request_time_violation : CapabilityRequest → Instant → ℕ → Violation
request_time_violation request now max_age_seconds =
    timestamp_violation now request_clock_skew_seconds max_age_seconds "REQUEST_TIMESTAMP_INVALID"
      "REQUEST_NOT_YET_VALID" "REQUEST_STALE" request.created_at

module _ (rt : Runtime) where
  open rt use {isoformat, str_int}

  -- The six texts of the requested constraints, all absent without them.
  unfoldable pub requested_texts :
      Option LeaseConstraints → List (Option String) → List (Option String)
  requested_texts none rest = none ∷ none ∷ none ∷ none ∷ none ∷ none ∷ rest
  requested_texts (some constraints) rest =
      constraints.geofence_id
      ∷ float_text rt constraints.max_latency_ms_p95
      ∷ float_text rt constraints.max_packet_loss_pct
      ∷ float_text rt constraints.min_uplink_mbps
      ∷ some (fallback_text constraints.fallback_on_degrade)
      ∷ float_text rt constraints.max_speed_mps
      ∷ rest

  unfoldable pub request_texts : CapabilityRequest → List (Option String)
  request_texts request =
      some request.protocol_version
      ∷ some request.message_id
      ∷ some request.correlation_id
      ∷ some (isoformat request.created_at)
      ∷ some "capability_request"
      ∷ some request.requesting_agent_id
      ∷ request.authenticated_agent_id
      ∷ some request.edge_agent_id
      ∷ some request.robot_id
      ∷ some request.mission_id
      ∷ some (capability_text request.capability)
      ∷ some request.reason
      ∷ some (str_int request.requested_duration_seconds)
      ∷ requested_texts request.requested_constraints
          (some request.request_nonce ∷ some request.signature_alg ∷ request.signature ∷ [])

  unfoldable pub signed_request_material_budget_violation : CapabilityRequest → Bool
  signed_request_material_budget_violation request =
      if signature_text_too_large request.signature
      then true
      else budget_exceeded 0 (request_texts request)

  abbrev pub signed_request : CapabilityRequest → Signed
  signed_request request = record {
    message = request_message request;
    claimed = request.requesting_agent_id;
    authenticated = request.authenticated_agent_id;
    signature = request.signature;
    too_large = signed_request_material_budget_violation request;
  }

  abbrev pub request_reasons : Reasons
  request_reasons = record {
    no_signer = "REQUEST_AUTHENTICATED_AGENT_MISSING";
    other_signer = "REQUEST_AUTHENTICATED_AGENT_MISMATCH";
    no_signature = "REQUEST_SIGNATURE_MISSING";
    no_key = "AGENT_KEY_NOT_TRUSTED";
    too_large = "REQUEST_SIGNED_MATERIAL_TOO_LARGE";
    bad_signature = "REQUEST_SIGNATURE_INVALID";
  }

  -- `_request_auth_violation`
  unfoldable pub request_auth_violation : CapabilityRequest → List (String × String) → Violation
  request_auth_violation request agent_public_keys_by_id =
      reject_if (not (subset capability_request_required_wire_fields request.model_fields_set))
        "REQUEST_REQUIRED_FIELD_MISSING"
      <|> signature_algorithm_violation request.base request.signature_alg
          "REQUEST_SIGNATURE_ALGORITHM_MISSING" "REQUEST_SIGNATURE_ALGORITHM_UNSUPPORTED"
      <|> signer_violation rt agent_public_keys_by_id request_reasons (signed_request request)

  unfoldable pub policy_digest : Policy → String
  policy_digest policy = stable_json_hash rt (rt.policy_dump policy)

  -- `_policy_digest_violation`
  unfoldable pub policy_digest_violation : Policy → List String → Violation
  policy_digest_violation policy accepted_policy_digests =
      reject_if (is_empty accepted_policy_digests) "POLICY_DIGEST_REQUIRED"
      <|> reject_if (not (contains (policy_digest policy) accepted_policy_digests))
          "POLICY_DIGEST_NOT_ACCEPTED"
