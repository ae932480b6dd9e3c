-- ===== src/Core/Leases.antt =====
-- leases.py: what a lease must satisfy by itself, and against the local configuration.
pub mod Bounded
pub mod Spec
use rclp.Prelude.{
  ℕ, ◌+◌, ◌-◌, Bool, true, false, not, ◌&&◌, ◌||◌, Option, none, some, String, List, ◌==◌, ltb, leb,
  if◌then◌else◌, contains, lookup, is_blank, Violation, reject_if, ◌<|>◌, require,
}
use rclp.Core.Float.{Float, float_lt}
use rclp.Core.Time.{Instant, Timestamp, utc, seconds, instant, max_wall}
use rclp.Core.Models.{
  CapabilityLease, LeaseConstraints, CapabilityConstraintRequirement, CapabilityConstraintBounds,
  FallbackAction, Capability, capability_text, fallback_text, signature_algorithm_violation,
  lease_message,
}
use rclp.Core.Runtime.{Runtime}
use rclp.Core.Crypto.{verify_with_public_key_b64}

-- The tests of `lease_time_violation` once all three timestamps are aware. `at + skew` overflows
-- past the last wall-clock reading. Where `-` runs, `expires_at` is past `issued_at`; and a lease
-- that is issued after `at` has a negative age, which is never too long.
unfoldable pub lease_window_violation : Instant → Instant → Instant → ℕ → ℕ → ℕ → Violation
lease_window_violation issued_at expires_at at max_age max_ttl skew =
    reject_if (ltb max_wall (at.wall + seconds skew)) "LEASE_TIMESTAMP_INVALID"
    <|> reject_if (ltb (utc at + seconds skew) (utc issued_at)) "LEASE_NOT_YET_VALID"
    <|> reject_if (leb (utc expires_at) (utc at)) "LEASE_EXPIRED"
    <|> reject_if (leb (utc expires_at) (utc issued_at)) "LEASE_TIME_WINDOW_INVALID"
    <|> reject_if (ltb (seconds max_ttl) (utc expires_at - utc issued_at)) "LEASE_TTL_TOO_LONG"
    <|> reject_if (ltb (seconds max_age + seconds skew) (utc at - utc issued_at)) "LEASE_STALE"

-- All three timestamps must be aware.
unfoldable pub lease_timestamps_violation :
    Timestamp → Timestamp → Timestamp → ℕ → ℕ → ℕ → Violation
lease_timestamps_violation issued_at expires_at at max_age max_ttl skew =
    require (instant at) "LEASE_TIMESTAMP_INVALID" λ now.
      require (instant issued_at) "LEASE_TIMESTAMP_INVALID" λ issued.
        require (instant expires_at) "LEASE_TIMESTAMP_INVALID"
          λ expires. lease_window_violation issued expires now max_age max_ttl skew

unfoldable pub lease_time_violation : CapabilityLease → Timestamp → ℕ → ℕ → ℕ → Violation
lease_time_violation lease at max_age max_ttl skew =
    lease_timestamps_violation lease.issued_at lease.expires_at at max_age max_ttl skew

-- A missing or empty signature fails.
unfoldable pub verify_lease_signature : Runtime → CapabilityLease → String → Bool
verify_lease_signature rt lease issuer_public_key_b64 = elim lease.signature [
  | none ↦ false
  | some signature ↦
      if signature == ""
      then false
      else verify_with_public_key_b64 rt (lease_message lease) signature issuer_public_key_b64
]

unfoldable pub lease_signature_algorithm_violation : CapabilityLease → Violation
lease_signature_algorithm_violation lease =
    signature_algorithm_violation lease.base lease.signature_alg "LEASE_SIGNATURE_ALGORITHM_MISSING"
      "LEASE_SIGNATURE_ALGORITHM_UNSUPPORTED"

unfoldable pub lease_matches_context :
    CapabilityLease → String → String → String → String → String → Bool
lease_matches_context lease agent_id edge_agent_id robot_id mission_id capability =
    (lease.agent_id == agent_id)
    && (lease.edge_agent_id == edge_agent_id)
    && (lease.robot_id == robot_id)
    && (lease.mission_id == mission_id)
    && (capability_text lease.capability == capability)

abbrev pub is_none {ℓ} : {A : Type ℓ} → Option A → Bool
is_none none = true
is_none (some a) = false

unfoldable pub capability_constraints_missing :
    LeaseConstraints → CapabilityConstraintRequirement → Bool
capability_constraints_missing constraints requirement =
    (requirement.require_geofence_id && is_none constraints.geofence_id)
    || (requirement.require_network_thresholds
        && (is_none constraints.max_latency_ms_p95
            || is_none constraints.max_packet_loss_pct
            || is_none constraints.min_uplink_mbps))
    || (requirement.require_fallback_on_degrade
        && (not (contains "fallback_on_degrade" constraints.model_fields_set)
            || is_blank (fallback_text constraints.fallback_on_degrade)))
    || (requirement.require_max_speed_mps && is_none constraints.max_speed_mps)

-- `value is not None and (bound is None or value > bound)`
unfoldable pub max_field_exceeds_policy : Option Float → Option Float → Bool
max_field_exceeds_policy none bound = false
max_field_exceeds_policy (some value) none = true
max_field_exceeds_policy (some value) (some bound) = float_lt bound value

unfoldable pub min_field_exceeds_policy : Option Float → Option Float → Bool
min_field_exceeds_policy none bound = false
min_field_exceeds_policy (some value) none = true
min_field_exceeds_policy (some value) (some bound) = float_lt value bound

unfoldable pub fallback_exceeds_policy : LeaseConstraints → Option FallbackAction → Bool
fallback_exceeds_policy constraints none =
    contains "fallback_on_degrade" constraints.model_fields_set
fallback_exceeds_policy constraints (some bound) =
    not (fallback_text constraints.fallback_on_degrade == fallback_text bound)

-- `a != b` where `b` is a text that is there.
abbrev pub differs : Option String → String → Bool
differs none b = true
differs (some a) b = not (a == b)

-- `bounds.geofence_id is not None and constraints.geofence_id != bounds.geofence_id`
unfoldable pub geofence_exceeds_policy : Option String → Option String → Bool
geofence_exceeds_policy value none = false
geofence_exceeds_policy value (some bound) = differs value bound

unfoldable pub capability_constraints_exceed_bounds :
    LeaseConstraints → CapabilityConstraintBounds → Bool
capability_constraints_exceed_bounds constraints bounds =
    geofence_exceeds_policy constraints.geofence_id bounds.geofence_id
    || max_field_exceeds_policy constraints.max_latency_ms_p95 bounds.max_latency_ms_p95
    || max_field_exceeds_policy constraints.max_packet_loss_pct bounds.max_packet_loss_pct
    || min_field_exceeds_policy constraints.min_uplink_mbps bounds.min_uplink_mbps
    || max_field_exceeds_policy constraints.max_speed_mps bounds.max_speed_mps
    || fallback_exceeds_policy constraints bounds.fallback_on_degrade

-- What the requirement and the bounds that are looked up must satisfy.
unfoldable pub requirement_checks : CapabilityLease → CapabilityConstraintRequirement → Violation
requirement_checks lease requirement =
    reject_if (not (capability_text requirement.capability == capability_text lease.capability))
      "CAPABILITY_CONSTRAINT_REQUIREMENTS_REQUIRED"
    <|> reject_if (capability_constraints_missing lease.constraints requirement)
        "LEASE_CONSTRAINTS_MISSING"

unfoldable pub bound_checks : CapabilityLease → CapabilityConstraintBounds → Violation
bound_checks lease bounds =
    reject_if (not (capability_text bounds.capability == capability_text lease.capability))
      "CAPABILITY_CONSTRAINT_BOUNDS_REQUIRED"
    <|> reject_if (capability_constraints_exceed_bounds lease.constraints bounds)
        "LEASE_CONSTRAINTS_EXCEED_POLICY"

unfoldable pub capability_constraint_requirement_violation :
    CapabilityLease → Option (List (String × CapabilityConstraintRequirement)) → Violation
capability_constraint_requirement_violation lease requirements =
    require requirements "CAPABILITY_CONSTRAINT_REQUIREMENTS_REQUIRED" λ by_capability.
      require (lookup (capability_text lease.capability) by_capability)
        "CAPABILITY_CONSTRAINT_REQUIREMENTS_REQUIRED" (requirement_checks lease)

unfoldable pub capability_constraint_bound_violation :
    CapabilityLease → Option (List (String × CapabilityConstraintBounds)) → Violation
capability_constraint_bound_violation lease all_bounds =
    require all_bounds "CAPABILITY_CONSTRAINT_BOUNDS_REQUIRED" λ by_capability.
      require (lookup (capability_text lease.capability) by_capability)
        "CAPABILITY_CONSTRAINT_BOUNDS_REQUIRED" (bound_checks lease)
