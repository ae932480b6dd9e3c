-- ===== src/Policy/Decide.antt =====
-- policy.py: `_evaluate_policy_inputs`. The request's nonce is consumed once the request is authentic,
-- before anything about the policy is looked at.
pub mod Spec
pub mod Link
pub mod Bounds
pub mod Outcome
pub mod Once
use rclp.Prelude.{
  ℕ, Bool, true, false, not, ◌&&◌, ◌||◌, Option, none, some, String, List, [], ◌∷◌, ◌++◌, ◌==◌, ltb,
  contains, Violation, reject_if, ◌<|>◌, require, if◌then◌else◌,
}
use rclp.Core.Time.{Instant}
use rclp.Core.Models.{
  CapabilityRequest, RobotStateAssertion, ControlPlaneReachabilityAssertion, LeaseConstraints,
  Policy, PolicyRequirements, BaseMessage, Decision, allow, capability_text,
  protocol_version_violation,
}
use rclp.Core.Runtime.{Runtime}
use rclp.Core.State.{
  state_auth_violation, state_time_violation, robot_state_required_wire_fields,
  control_plane_reachability_auth_violation, control_plane_reachability_time_violation,
  control_plane_reachability_required_wire_fields,
}
use rclp.Core.Conformance.{network_state_malformed}
use rclp.Policy.Replay.{RequestReplayCache, request_cache_durable, consume}
use rclp.Policy.Request.{request_time_violation, request_auth_violation, policy_digest_violation}
use rclp.Policy.Narrow.{requested_constraint_violation, apply_requested_constraints}
use rclp.Policy.Rules.{
  PolicyResult, denied, ◌unless◌, deny_for, network_requirements_malformed,
  geofence_requirements_malformed, geofence_unsatisfied, plane_reachability_violation,
  evaluate_network_requirements,
}

-- What the issuer is configured with, besides the policy.
pub record Issuer : Type 0 where
  pub agent_public_keys_by_id : List (String × String)
  pub edge_public_keys_by_id : List (String × String)
  pub accepted_policy_digests : List String
  pub max_request_age_seconds : ℕ
  pub max_state_age_seconds : ℕ

abbrev plane_base : Option ControlPlaneReachabilityAssertion → List BaseMessage
plane_base none = []
plane_base (some plane) = plane.base ∷ []

-- The request by itself, up to the look at the cache.
unfoldable pub request_violation :
    Runtime
    → Issuer
    → CapabilityRequest
    → RobotStateAssertion
    → Option ControlPlaneReachabilityAssertion
    → Instant
    → Violation
request_violation rt issuer request state plane now =
    protocol_version_violation (request.base ∷ state.base ∷ plane_base plane)
    <|> request_time_violation request now issuer.max_request_age_seconds
    <|> request_auth_violation rt request issuer.agent_public_keys_by_id

-- What the policy says of the request, and whether the state is about the same robot and mission.
unfoldable pub scope_violation :
    Runtime → Issuer → CapabilityRequest → RobotStateAssertion → Policy → Violation
scope_violation rt issuer request state policy =
    policy_digest_violation rt policy issuer.accepted_policy_digests
    <|> reject_if (not (capability_text request.capability == capability_text policy.capability))
        "CAPABILITY_NOT_COVERED_BY_POLICY"
    <|> reject_if (ltb policy.lease_ttl_seconds request.requested_duration_seconds)
        "REQUESTED_DURATION_TOO_LONG"
    <|> reject_if (not (contains request.requesting_agent_id policy.requirements.allowed_agents))
        "AGENT_NOT_ALLOWED"
    <|> reject_if (not (contains request.edge_agent_id policy.requirements.allowed_edge_agents))
        "EDGE_AGENT_NOT_ALLOWED"
    <|> reject_if (not (contains request.robot_id policy.requirements.allowed_robots))
        "ROBOT_NOT_ALLOWED"
    <|> reject_if (not (contains request.mission_id policy.requirements.allowed_missions))
        "MISSION_NOT_ALLOWED"
    <|> reject_if
        (not (state.robot_id == request.robot_id)
          || not (state.edge_agent_id == request.edge_agent_id))
        "STATE_ASSERTION_MISMATCH"
    <|> reject_if (not (state.mission_id == request.mission_id)) "MISSION_STATE_MISMATCH"

abbrev pub state_wire_fields : PolicyRequirements → List String
state_wire_fields req =
    robot_state_required_wire_fields
    ++ (if req.human_operator_available then "human_operator_available" ∷ [] else [])

unfoldable pub evidence_violation :
    Runtime → Issuer → RobotStateAssertion → PolicyRequirements → Instant → Violation
evidence_violation rt issuer state req now =
    state_auth_violation rt issuer.edge_public_keys_by_id state (state_wire_fields req)
    <|> state_time_violation state now issuer.max_state_age_seconds

unfoldable pub plane_evidence_violation :
    Runtime → Issuer → CapabilityRequest → ControlPlaneReachabilityAssertion → Instant → Violation
plane_evidence_violation rt issuer request plane now =
    reject_if
      (not (plane.robot_id == request.robot_id)
        || not (plane.edge_agent_id == request.edge_agent_id)
        || not (plane.mission_id == request.mission_id))
      "CONTROL_PLANE_STATE_MISMATCH"
    <|> control_plane_reachability_auth_violation rt issuer.edge_public_keys_by_id plane
        control_plane_reachability_required_wire_fields
    <|> control_plane_reachability_time_violation plane now issuer.max_state_age_seconds

unfoldable pub plane_result :
    Runtime
    → Issuer
    → CapabilityRequest
    → Option ControlPlaneReachabilityAssertion
    → Policy
    → Instant
    → Option PolicyResult
plane_result rt issuer request none policy now =
    some (denied "CONTROL_PLANE_STATE_REQUIRED" policy.fallback.on_deny)
plane_result rt issuer request (some plane) policy now =
    deny_for (plane_evidence_violation rt issuer request plane now) policy.fallback.on_deny
    unless deny_for
        (plane_reachability_violation plane policy.requirements.control_plane_must_be_reachable)
        policy.fallback.on_disconnect

unfoldable pub site_violation : RobotStateAssertion → PolicyRequirements → Violation
site_violation state req =
    reject_if (network_requirements_malformed req.network) "POLICY_NETWORK_REQUIREMENTS_MALFORMED"
    <|> reject_if (network_state_malformed state.network_state) "NETWORK_STATE_MALFORMED"
    <|> reject_if (geofence_requirements_malformed req) "POLICY_GEOFENCE_REQUIREMENTS_MALFORMED"
    <|> reject_if (geofence_unsatisfied req state.geofence_state) "GEOFENCE_NOT_SATISFIED"
    <|> reject_if (req.human_operator_available && not state.human_operator_available)
        "HUMAN_OPERATOR_NOT_AVAILABLE"

-- The constraints that the policy itself puts on a lease; all six fields are set.
unfoldable pub base_constraints : RobotStateAssertion → Policy → LeaseConstraints
base_constraints state policy = record {
  geofence_id = some state.geofence_state.geofence_id;
  max_latency_ms_p95 = some policy.requirements.network.max_latency_ms_p95;
  max_packet_loss_pct = some policy.requirements.network.max_packet_loss_pct;
  min_uplink_mbps = some policy.requirements.network.min_uplink_mbps;
  fallback_on_degrade = policy.fallback.on_network_degrade;
  max_speed_mps = policy.requirements.max_speed_mps;
  model_fields_set =
      "geofence_id" ∷ "max_latency_ms_p95" ∷ "max_packet_loss_pct" ∷ "min_uplink_mbps"
      ∷ "fallback_on_degrade" ∷ "max_speed_mps" ∷ [];
}

-- Everything after the nonce is consumed that can end the evaluation without a lease.
unfoldable pub refusal :
    Runtime
    → Issuer
    → CapabilityRequest
    → RobotStateAssertion
    → Option ControlPlaneReachabilityAssertion
    → Policy
    → Instant
    → Option PolicyResult
refusal rt issuer request state plane policy now =
    deny_for (scope_violation rt issuer request state policy) policy.fallback.on_deny
    unless deny_for (evidence_violation rt issuer state policy.requirements now)
        policy.fallback.on_deny
    unless (if policy.requirements.control_plane_required
        then plane_result rt issuer request plane policy now
        else none)
    unless deny_for (site_violation state policy.requirements) policy.fallback.on_deny
    unless evaluate_network_requirements policy.requirements.network state.network_state
        policy.fallback
    unless deny_for
        (requested_constraint_violation (base_constraints state policy)
          request.requested_constraints)
        policy.fallback.on_deny

unfoldable pub granted : CapabilityRequest → RobotStateAssertion → Policy → PolicyResult
granted request state policy = record {
  decision = allow;
  reason_code = "POLICY_SATISFIED";
  safe_alternatives = [];
  constraints =
      some
        (apply_requested_constraints (base_constraints state policy) request.requested_constraints);
}

unfoldable pub unless_refused : Option PolicyResult → PolicyResult → PolicyResult
unless_refused none result = result
unless_refused (some refused) result = refused

module _ (rt : Runtime) (issuer : Issuer) where
  unfoldable pub after_consume :
      CapabilityRequest
      → RobotStateAssertion
      → Option ControlPlaneReachabilityAssertion
      → Policy
      → Instant
      → RequestReplayCache × Bool
      → Option RequestReplayCache × PolicyResult
  after_consume request state plane policy now (cache, false) =
      (some cache, denied "REQUEST_REPLAYED" policy.fallback.on_deny)
  after_consume request state plane policy now (cache, true) = (
    some cache,
    unless_refused (refusal rt issuer request state plane policy now)
        (granted request state policy),
  )

  unfoldable pub with_cache :
      Option RequestReplayCache
      → CapabilityRequest
      → RobotStateAssertion
      → Option ControlPlaneReachabilityAssertion
      → Policy
      → Instant
      → Option RequestReplayCache × PolicyResult
  with_cache none request state plane policy now =
      (none, denied "REQUEST_REPLAY_CACHE_REQUIRED" policy.fallback.on_deny)
  with_cache (some cache) request state plane policy now =
      let after = after_consume request state plane policy now (consume cache request) in
      if not (request_cache_durable cache)
      then (some cache, denied "REQUEST_REPLAY_STORE_DURABLE_REQUIRED" policy.fallback.on_deny)
      else after

  unfoldable pub by_request :
      Violation
      → Option RequestReplayCache
      → CapabilityRequest
      → RobotStateAssertion
      → Option ControlPlaneReachabilityAssertion
      → Policy
      → Instant
      → Option RequestReplayCache × PolicyResult
  by_request (some reason) cache request state plane policy now =
      (cache, denied reason policy.fallback.on_deny)
  by_request none cache request state plane policy now =
      with_cache cache request state plane policy now

  -- `_evaluate_policy_inputs`
  unfoldable pub evaluate_policy_inputs :
      Option RequestReplayCache
      → CapabilityRequest
      → RobotStateAssertion
      → Option ControlPlaneReachabilityAssertion
      → Policy
      → Instant
      → Option RequestReplayCache × PolicyResult
  evaluate_policy_inputs cache request state plane policy now =
      by_request (request_violation rt issuer request state plane now) cache request state plane
        policy now
