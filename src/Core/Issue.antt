-- ===== src/Core/Issue.antt =====
-- leases.py: `issue_lease`, `is_expired` and `is_not_yet_valid`. A ttl below one is refused like 0. The
-- time and the three random identifiers are drawn anew for each lease. An exception is a text on the left.
pub mod Spec
use rclp.Prelude.{
  raise_or, ℕ, ◌+◌, ◌*◌, ◌-◌, ◌≤◌, ◌<◌, ◌≡◌, refl, ◌↔◌, ◌⊎◌, inl, inr, Bool, true, false, not, ◌&&◌,
  ◌||◌, Option, none, some, String, List, [], ◌∷◌, ltb, leb, is_blank, format, arith, if◌then◌else◌,
  Violation, reject_if, ◌<|>◌,
}
use rclp.Core.Time.{Instant, Timestamp, naive, aware, utc, seconds, day, max_wall}
use rclp.Core.Models.{
  CapabilityRequest, CapabilityLease, LeaseConstraints, lease_message, supported_protocol_version,
  ed25519_signature_algorithm, unsigned,
}
use rclp.Core.Runtime.{Runtime}
use rclp.Core.Crypto.{verify_with_public_key_b64}
use rclp.Core.Keys.{DemoKeyPair, sign, public_key_b64, IsEd25519, verify-sign}
use rclp.Core.Leases.{lease_time_violation}
use rclp.Core.Leases.Spec.{IsInForce, lease_time_iff}

pub record LeaseDraw : Type 0 where
  pub now : ℕ
  pub message_hex : String
  pub lease_hex : String
  pub nonce_hex : String

-- The guards before the lease is made; the addition of the ttl may pass `datetime.max`.
unfoldable pub issue_violation :
    LeaseDraw → CapabilityRequest → (ttl : ℕ) → (policy_id policy_digest : String) → Violation
issue_violation draw request ttl_seconds policy_id policy_digest =
    reject_if (leb ttl_seconds 0) "lease ttl must be positive"
    <|> reject_if (ltb request.requested_duration_seconds ttl_seconds)
        "lease ttl cannot exceed requested duration"
    <|> reject_if (is_blank policy_id || is_blank policy_digest)
        "lease policy provenance is required"
    <|> reject_if (ltb max_wall (draw.now + seconds ttl_seconds)) "date value out of range"

-- A wall-clock reading in UTC, as `datetime.now(timezone.utc)` gives it.
abbrev pub utc_now : ℕ → Instant
utc_now wall = record { wall = wall; east = day }

unfoldable pub unsigned_lease :
    LeaseDraw
    → CapabilityRequest
    → LeaseConstraints
    → (issuer_id : String) → (ttl : ℕ) → (policy_id policy_digest : String) → CapabilityLease
unsigned_lease draw request constraints issuer_id ttl_seconds policy_id policy_digest = record {
  base = record {
    protocol_version = supported_protocol_version;
    message_id = format ("msg_" ∷ draw.message_hex ∷ []);
    correlation_id = request.correlation_id;
    created_at = aware (utc_now draw.now);
    model_fields_set =
        "protocol_version" ∷ "message_id" ∷ "correlation_id" ∷ "created_at" ∷ "message_type"
        ∷ "issuer_id" ∷ "agent_id" ∷ "edge_agent_id" ∷ "robot_id" ∷ "mission_id" ∷ "capability"
        ∷ "constraints" ∷ "issued_at" ∷ "expires_at" ∷ "nonce" ∷ "policy_id" ∷ "policy_digest"
        ∷ "signature_alg" ∷ "signature" ∷ [];
  };
  lease_id = format ("lease_" ∷ draw.lease_hex ∷ []);
  issuer_id = issuer_id;
  agent_id = request.requesting_agent_id;
  edge_agent_id = request.edge_agent_id;
  robot_id = request.robot_id;
  mission_id = request.mission_id;
  capability = request.capability;
  constraints = constraints;
  issued_at = aware (utc_now draw.now);
  expires_at = aware (utc_now (draw.now + seconds ttl_seconds));
  nonce = format ("lease_nonce_" ∷ draw.nonce_hex ∷ []);
  policy_id = policy_id;
  policy_digest = policy_digest;
  signature_alg = ed25519_signature_algorithm;
  signature = none;
}

-- `lease.signature = issuer_key.sign(lease)`
abbrev pub with_signature : Runtime → DemoKeyPair → CapabilityLease → CapabilityLease
with_signature rt issuer_key lease = record lease {
  signature = some (sign rt issuer_key (lease_message lease));
}

unfoldable pub issue_lease :
    Runtime
    → LeaseDraw
    → CapabilityRequest
    → LeaseConstraints
    → (issuer_id : String) → DemoKeyPair
    → (ttl : ℕ) → (policy_id policy_digest : String) → String ⊎ CapabilityLease
issue_lease rt draw request constraints issuer_id issuer_key ttl_seconds policy_id policy_digest =
    raise_or (issue_violation draw request ttl_seconds policy_id policy_digest) (
      with_signature rt issuer_key
        (unsigned_lease draw request constraints issuer_id ttl_seconds policy_id policy_digest))

-- The test of two timestamps; an aware one does not compare with a naive one, which raises.
unfoldable pub compare_with : (ℕ → ℕ → Bool) → Timestamp → Timestamp → Option Bool
compare_with test (naive a) (naive b) = some (test a b)
compare_with test (aware a) (aware b) = some (test (utc a) (utc b))
compare_with test _ _ = none

unfoldable pub is_expired : CapabilityLease → Timestamp → Option Bool
is_expired lease at = compare_with (λ now expires. leb expires now) at lease.expires_at

unfoldable pub is_not_yet_valid : CapabilityLease → Timestamp → Option Bool
is_not_yet_valid lease at = compare_with ltb at lease.issued_at
