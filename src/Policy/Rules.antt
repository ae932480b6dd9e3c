-- ===== src/Policy/Rules.antt =====
-- policy.py: the rules of a policy about the network, the place and the control plane.
use rclp.Prelude.{
  Bool, true, false, not, ◌&&◌, ◌||◌, Option, none, some, String, List, [], ◌∷◌, ◌==◌, is_blank,
  Violation, reject_if, ◌<|>◌, if◌then◌else◌,
}
use rclp.Core.Float.{float_lt, finite_nonnegative_number, hundred}
use rclp.Core.Models.{
  NetworkRequirements, PolicyRequirements, FallbackPolicy, FallbackAction, NetworkState,
  GeofenceState, ControlPlaneReachabilityAssertion, ControlPlaneReachability, unknown_plane,
  partitioned_plane, Decision, deny, degrade, LeaseConstraints,
}
use rclp.Core.State.{network_state_authority_violation}

-- The decision, its reason, the safe alternatives, and the constraints of a lease.
pub record PolicyResult : Type 0 where
  pub decision : Decision
  pub reason_code : String
  pub safe_alternatives : List FallbackAction
  pub constraints : Option LeaseConstraints

abbrev pub denied : String → FallbackAction → PolicyResult
denied reason alternative = record {
  decision = deny;
  reason_code = reason;
  safe_alternatives = alternative ∷ [];
  constraints = none;
}

abbrev pub degraded : String → FallbackAction → PolicyResult
degraded reason alternative = record {
  decision = degrade;
  reason_code = reason;
  safe_alternatives = alternative ∷ [];
  constraints = none;
}

-- `_network_state_malformed` is the function of conformance.py again.
unfoldable pub network_requirements_malformed : NetworkRequirements → Bool
network_requirements_malformed req =
    not (
      finite_nonnegative_number req.max_latency_ms_p95 none
      && finite_nonnegative_number req.max_packet_loss_pct (some hundred)
      && finite_nonnegative_number req.min_uplink_mbps none
      && finite_nonnegative_number req.deny_above_latency_ms_p95 none
      && finite_nonnegative_number req.deny_above_packet_loss_pct (some hundred)
      && finite_nonnegative_number req.deny_below_uplink_mbps none)
    || float_lt req.deny_above_latency_ms_p95 req.max_latency_ms_p95
    || float_lt req.deny_above_packet_loss_pct req.max_packet_loss_pct
    || float_lt req.min_uplink_mbps req.deny_below_uplink_mbps

abbrev blank_or_none : Option String → Bool
blank_or_none none = true
blank_or_none (some text) = is_blank text

-- `_geofence_requirements_malformed`
unfoldable pub geofence_requirements_malformed : PolicyRequirements → Bool
geofence_requirements_malformed req = req.geofence_required && blank_or_none req.geofence_id

-- `a != b`, where `b` may be `None`.
abbrev pub other_than : String → Option String → Bool
other_than a none = true
other_than a (some b) = not (a == b)

abbrev pub differ : Bool → Bool → Bool
differ true b = not b
differ false b = b

unfoldable pub geofence_unsatisfied : PolicyRequirements → GeofenceState → Bool
geofence_unsatisfied req geofence =
    req.geofence_required
    && (other_than geofence.geofence_id req.geofence_id
        || differ geofence.inside req.geofence_allowed)

abbrev pub cut_off : ControlPlaneReachability → Bool
cut_off unknown_plane = true
cut_off partitioned_plane = true
cut_off _ = false

-- `_control_plane_reachability_violation`
unfoldable pub plane_reachability_violation : ControlPlaneReachabilityAssertion → Bool → Violation
plane_reachability_violation assertion must_be_reachable =
    if must_be_reachable
    then reject_if (cut_off assertion.reachability) "CONTROL_PLANE_UNREACHABLE"
      <|> reject_if (not assertion.reachable) "CONTROL_PLANE_UNREACHABLE"
    else none

-- A test that ends the evaluation with a result, and the tests after it.
infixr 15 ◌unless◌
abbrev pub ◌unless◌ : Option PolicyResult → Option PolicyResult → Option PolicyResult
some result unless rest = some result
none unless rest = rest

abbrev pub result_if : Bool → PolicyResult → Option PolicyResult
result_if true result = some result
result_if false result = none

abbrev pub deny_for : Violation → FallbackAction → Option PolicyResult
deny_for none alternative = none
deny_for (some reason) alternative = some (denied reason alternative)

-- `_evaluate_network_requirements`
unfoldable pub evaluate_network_requirements :
    NetworkRequirements → NetworkState → FallbackPolicy → Option PolicyResult
evaluate_network_requirements req net fallback =
    deny_for (network_state_authority_violation net) fallback.on_disconnect
    unless result_if (float_lt req.deny_above_latency_ms_p95 net.latency_ms_p95)
        (denied "NETWORK_LATENCY_TOO_HIGH" fallback.on_network_degrade)
    unless result_if (float_lt req.deny_above_packet_loss_pct net.packet_loss_pct)
        (denied "NETWORK_PACKET_LOSS_TOO_HIGH" fallback.on_network_degrade)
    unless result_if (float_lt net.uplink_mbps req.deny_below_uplink_mbps)
        (denied "NETWORK_UPLINK_TOO_LOW" fallback.on_network_degrade)
    unless result_if (float_lt req.max_latency_ms_p95 net.latency_ms_p95)
        (degraded "NETWORK_LATENCY_DEGRADED" fallback.on_network_degrade)
    unless result_if (float_lt req.max_packet_loss_pct net.packet_loss_pct)
        (degraded "NETWORK_PACKET_LOSS_DEGRADED" fallback.on_network_degrade)
    unless result_if (float_lt net.uplink_mbps req.min_uplink_mbps)
        (degraded "NETWORK_UPLINK_DEGRADED" fallback.on_network_degrade)
