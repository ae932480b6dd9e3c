-- ===== src/Core/Conformance.antt =====
-- conformance.py: `validate_lease_for_command` and its parts. A verdict is the flag and the reason.
-- `float(raw_speed)` raises `OverflowError` on an integer that no float holds, so the checks of the
-- payload, and what calls them, return an `Outcome`.
pub mod Validate
pub mod Payload
pub mod Match
use rclp.Prelude.{
  ℕ, ◌≡◌, arith, Bool, true, false, not, ◌&&◌, ◌||◌, Option, none, some, String, List, [], ◌∷◌,
  ◌==◌, ltb, leb, length, if◌then◌else◌, contains, lookup, keys, is_blank, is_empty, Violation,
  reject_if, ◌<|>◌, require, Verdict, ◌or_else◌,
}
use rclp.Core.Float.{
  Float, float_lt, float_zero, isfinite, hundred, finite_nonnegative_number, isfinite-of_wellformed,
}
use rclp.Core.Value.{
  Value, Fields, get_field, field_names, count_fields, value_eq, Real, not_real, real, overflow,
  to_real,
}
use rclp.Core.Time.{Instant, Timestamp, aware}
use rclp.Core.Models.{
  CapabilityLease, CapabilityConstraintRequirement, CapabilityConstraintBounds, RobotStateAssertion,
  Capability, remote_assist, capability_text, protocol_version_violation, NetworkState,
  LeaseConstraints,
}
use rclp.Core.Runtime.{Runtime}
use rclp.Core.SignedText.{lease_signed_material_too_large}
use rclp.Core.Leases.{
  capability_constraint_bound_violation, capability_constraint_requirement_violation,
  lease_matches_context, lease_signature_algorithm_violation, lease_time_violation,
  verify_lease_signature, is_none, differs,
}
use rclp.Core.State.{
  network_state_authority_violation, state_auth_violation, state_time_violation,
  robot_state_required_wire_fields,
}

-- A call returns, or an exception of Python's own leaves it.
pub data Outcome {ℓ} (A : Type ℓ) : Type ℓ where
  returns : A → Outcome A
  raises : String → Outcome A

abbrev pub lease_clock_skew_seconds : ℕ
lease_clock_skew_seconds = 30

-- `next(iter(trusted_issuer_ids))` of a set with one element.
unfoldable pub single_issuer_key : List String → String → List (String × String)
single_issuer_key (issuer_id ∷ []) key = (issuer_id, key) ∷ []
single_issuer_key _ key = []

unfoldable pub issuer_key_registry :
    List String → Option String → Option (List (String × String)) → List (String × String)
issuer_key_registry trusted_issuer_ids key (some keys_by_id) = keys_by_id
issuer_key_registry trusted_issuer_ids none none = []
issuer_key_registry trusted_issuer_ids (some key) none = single_issuer_key trusted_issuer_ids key

-- `issuer_capability_scopes.get(issuer_id, set())`
abbrev pub or_no_scope : Option (List String) → List String
or_no_scope none = []
or_no_scope (some scope) = scope

unfoldable pub capability_scope_violation :
    CapabilityLease → Option (List String) → Option (List (String × List String)) → Violation
capability_scope_violation lease accepted_capabilities issuer_capability_scopes =
    require accepted_capabilities "CAPABILITY_SCOPE_REQUIRED" λ accepted.
      reject_if (is_empty accepted) "CAPABILITY_SCOPE_REQUIRED"
      <|> require issuer_capability_scopes "CAPABILITY_SCOPE_REQUIRED" λ scopes.
        reject_if (not (contains (capability_text lease.capability) accepted))
          "CAPABILITY_NOT_GRANTED"
        <|> reject_if
            (not (
              contains (capability_text lease.capability)
                (or_no_scope (lookup lease.issuer_id scopes))))
            "CAPABILITY_NOT_GRANTED"

-- A set of digests from which dropping the blank ones changes the size.
unfoldable pub any_blank : List String → Bool
any_blank [] = false
any_blank (digest ∷ digests) = is_blank digest || any_blank digests

unfoldable pub lease_policy_provenance_violation :
    CapabilityLease → Option String → Option (List String) → Violation
lease_policy_provenance_violation lease accepted_policy_id accepted_policy_digests =
    require accepted_policy_id "POLICY_PROVENANCE_REQUIRED" λ policy_id.
      reject_if (is_blank policy_id) "POLICY_PROVENANCE_REQUIRED"
      <|> require accepted_policy_digests "POLICY_PROVENANCE_REQUIRED" λ digests.
        reject_if (is_empty digests) "POLICY_PROVENANCE_REQUIRED"
        <|> reject_if (any_blank digests) "POLICY_PROVENANCE_REQUIRED"
        <|> reject_if (is_blank lease.policy_id) "LEASE_POLICY_PROVENANCE_REQUIRED"
        <|> reject_if (is_blank lease.policy_digest) "LEASE_POLICY_PROVENANCE_REQUIRED"
        <|> reject_if
            (not (lease.policy_id == policy_id) || not (contains lease.policy_digest digests))
            "LEASE_POLICY_NOT_ACCEPTED"

abbrev is_remote_assist : Capability → Bool
is_remote_assist remote_assist = true
is_remote_assist _ = false

unfoldable pub lease_requires_current_state : CapabilityLease → Bool
lease_requires_current_state lease =
    is_remote_assist lease.capability
    || not (is_none lease.constraints.geofence_id)
    || not (is_none lease.constraints.max_latency_ms_p95)
    || not (is_none lease.constraints.max_packet_loss_pct)
    || not (is_none lease.constraints.min_uplink_mbps)

-- `value is None or _finite_nonnegative_number(value, max_value=...)`
abbrev none_or_wellformed : Option Float → Option Float → Bool
none_or_wellformed none max_value = true
none_or_wellformed (some x) max_value = finite_nonnegative_number x max_value

unfoldable pub lease_constraints_malformed : LeaseConstraints → Bool
lease_constraints_malformed constraints = not (
    none_or_wellformed constraints.max_latency_ms_p95 none
    && none_or_wellformed constraints.max_packet_loss_pct (some hundred)
    && none_or_wellformed constraints.min_uplink_mbps none
    && none_or_wellformed constraints.max_speed_mps none)

unfoldable pub network_state_malformed : NetworkState → Bool
network_state_malformed network = not (
    finite_nonnegative_number network.latency_ms_p95 none
    && finite_nonnegative_number network.packet_loss_pct (some hundred)
    && finite_nonnegative_number network.uplink_mbps none)

-- `constraint is not None and value > constraint`, and the same with `<`.
abbrev above : Float → Option Float → Bool
above value none = false
above value (some bound) = float_lt bound value

abbrev below : Float → Option Float → Bool
below value none = false
below value (some bound) = float_lt value bound

-- `constraints.geofence_id is not None`, and then the robot must be inside that very geofence.
unfoldable pub geofence_violation : Option String → Bool → String → Violation
geofence_violation none inside at = none
geofence_violation (some wanted) inside at =
    reject_if (not inside) "GEOFENCE_CONSTRAINT_VIOLATED"
    <|> reject_if (not (at == wanted)) "GEOFENCE_CONSTRAINT_VIOLATED"

unfoldable pub lease_state_violation : CapabilityLease → RobotStateAssertion → Violation
lease_state_violation lease state =
    reject_if
      (not (state.robot_id == lease.robot_id)
        || not (state.edge_agent_id == lease.edge_agent_id)
        || not (state.mission_id == lease.mission_id))
      "LEASE_STATE_MISMATCH"
    <|> geofence_violation lease.constraints.geofence_id state.geofence_state.inside
        state.geofence_state.geofence_id
    <|> reject_if (network_state_malformed state.network_state) "NETWORK_STATE_MALFORMED"
    <|> network_state_authority_violation state.network_state
    <|> reject_if (above state.network_state.latency_ms_p95 lease.constraints.max_latency_ms_p95)
        "NETWORK_LATENCY_TOO_HIGH"
    <|> reject_if (above state.network_state.packet_loss_pct lease.constraints.max_packet_loss_pct)
        "NETWORK_PACKET_LOSS_TOO_HIGH"
    <|> reject_if (below state.network_state.uplink_mbps lease.constraints.min_uplink_mbps)
        "NETWORK_UPLINK_TOO_LOW"

unfoldable pub validate_lease_against_state : CapabilityLease → RobotStateAssertion → Verdict
validate_lease_against_state lease state =
    lease_state_violation lease state or_else (true, "LEASE_VALID")

-- `set(command_payload) - SUPPORTED_SPEED_PAYLOAD_FIELDS` is not empty.
unfoldable pub has_unsupported : List String → Bool
has_unsupported [] = false
has_unsupported (name ∷ names) =
    not (contains name ("max_speed_mps" ∷ "speed_mps" ∷ [])) || has_unsupported names

-- Both speeds given, and not equal.
unfoldable pub speeds_conflict : Option Value → Option Value → Bool
speeds_conflict (some a) (some b) = not (value_eq a b)
speeds_conflict _ _ = false

-- `payload.get("max_speed_mps", payload.get("speed_mps"))`; a JSON null is `None` too.
unfoldable pub present : Option Value → Option Value
present none = none
present (some Value.null) = none
present (some v) = some v

unfoldable pub raw_speed : Option Value → Option Value → Option Value
raw_speed (some v) other = present (some v)
raw_speed none other = present other

-- The number against the limit.
unfoldable pub speed_verdict : Float → Real → Outcome Verdict
speed_verdict max_speed not_real = returns (false, "COMMAND_SPEED_MALFORMED")
speed_verdict max_speed overflow = raises "OverflowError"
speed_verdict max_speed (real speed) = returns (
    reject_if (not (isfinite speed) || float_lt speed float_zero) "COMMAND_SPEED_MALFORMED"
      <|> reject_if (float_lt max_speed speed) "COMMAND_SPEED_TOO_HIGH"
    or_else (true, "LEASE_VALID"))

unfoldable pub limited_speed : Float → Option Value → Outcome Verdict
limited_speed max_speed none = returns (false, "COMMAND_SPEED_MISSING")
limited_speed max_speed (some raw) = speed_verdict max_speed (to_real raw)

-- The payload under the lease's speed limit, or under none.
unfoldable pub speed_checks : Option Float → Fields → Outcome Verdict
speed_checks none payload = returns (
    reject_if (ltb 0 (count_fields payload)) "COMMAND_PAYLOAD_SCHEMA_VIOLATION"
    or_else (true, "LEASE_VALID"))
speed_checks (some max_speed) payload =
    if not (finite_nonnegative_number max_speed none)
    then returns (false, "LEASE_CONSTRAINT_MALFORMED")
    else if speeds_conflict (get_field "max_speed_mps" payload) (get_field "speed_mps" payload)
    then returns (false, "COMMAND_SPEED_CONFLICT")
    else limited_speed max_speed
        (raw_speed (get_field "max_speed_mps" payload) (get_field "speed_mps" payload))

unfoldable pub payload_checks : Option Float → Option Fields → Outcome Verdict
payload_checks max_speed none = returns (false, "COMMAND_PAYLOAD_SCHEMA_VIOLATION")
payload_checks max_speed (some payload) =
    if has_unsupported (field_names payload)
    then returns (false, "COMMAND_PAYLOAD_SCHEMA_VIOLATION")
    else speed_checks max_speed payload

unfoldable pub validate_command_payload_against_constraints :
    CapabilityLease → Option Fields → Outcome Verdict
validate_command_payload_against_constraints lease command_payload =
    payload_checks lease.constraints.max_speed_mps command_payload

-- The limits of constraints that are not malformed are finite.
pub record HasFiniteLimits (c : LeaseConstraints) : Type 0 where
  pub latency : (x : Float) → c.max_latency_ms_p95 ≡ some x → isfinite x ≡ true
  pub loss : (x : Float) → c.max_packet_loss_pct ≡ some x → isfinite x ≡ true
  pub uplink : (x : Float) → c.min_uplink_mbps ≡ some x → isfinite x ≡ true
  pub speed : (x : Float) → c.max_speed_mps ≡ some x → isfinite x ≡ true

finite_limit :
    (o m : Option Float)
    → none_or_wellformed o m ≡ true
    → (x : Float) → o ≡ some x
    → isfinite x ≡ true
finite_limit none m h x e = cc
finite_limit (some y) m h x e = ground (arith, isfinite-of_wellformed y m, e)

pub wellformed_limits :
    (c : LeaseConstraints) → lease_constraints_malformed c ≡ false → HasFiniteLimits c
unfolding lease_constraints_malformed
wellformed_limits c h = record {
  latency = finite_limit c.max_latency_ms_p95 none (ground arith);
  loss = finite_limit c.max_packet_loss_pct (some hundred) (ground arith);
  uplink = finite_limit c.min_uplink_mbps none (ground arith);
  speed = finite_limit c.max_speed_mps none (ground arith);
}
