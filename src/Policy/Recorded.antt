-- ===== src/Policy/Recorded.antt =====
-- policy.py: `evaluate_policy`, which records each decision. If the log raises, so does the call, after the
-- replay cache has changed.
use rclp.Prelude.{◌⊎◌, true, Option, none, some, String, List, [], ◌∷◌, format}
use rclp.Core.Value.{Value, null, str, list, Items, nil, cons, Fields, end, field}
use rclp.Core.Time.{Instant}
use rclp.Core.Models.{
  AuditCommit, AuditEventType, capability_allowed, capability_denied, capability_degraded, Decision,
  allow, deny, degrade, decision_text, capability_text, FallbackAction, fallback_text,
  CapabilityRequest, RobotStateAssertion, ControlPlaneReachabilityAssertion, Policy, plane_message,
}
use rclp.Core.Runtime.{Runtime}
use rclp.Core.Audit.{AuditLog, EventDraw, RecordArguments, record_event}
use rclp.Policy.Replay.{RequestReplayCache}
use rclp.Policy.Request.{policy_digest}
use rclp.Policy.Rules.{PolicyResult}
use rclp.Policy.Decide.{Issuer, evaluate_policy_inputs}

abbrev pub decision_event : Decision → AuditEventType
decision_event allow = capability_allowed
decision_event deny = capability_denied
decision_event degrade = capability_degraded

abbrev pub action_items : List FallbackAction → Items
action_items [] = nil
action_items (action ∷ actions) = cons (str (fallback_text action)) (action_items actions)

-- A value of what is there, and `None` otherwise.
abbrev pub value_or_null : {A : Type 0} → (A → Value) → Option A → Value
value_or_null dump none = null
value_or_null dump (some a) = dump a

abbrev pub plane_ids : Option ControlPlaneReachabilityAssertion → List String
plane_ids none = []
plane_ids (some plane) = plane.message_id ∷ []

module _ (rt : Runtime) where
  unfoldable pub decision_payload :
      CapabilityRequest
      → RobotStateAssertion
      → Option ControlPlaneReachabilityAssertion
      → Policy
      → PolicyResult
      → Fields
  decision_payload request state plane policy result = field "request_id" (str request.message_id) (
      field "state_assertion_id" (str state.message_id) (
        field "control_plane_reachability_assertion_id"
          (value_or_null (λ p. str p.message_id) plane)
          (field "decision" (str (decision_text result.decision)) (
            field "reason_code" (str result.reason_code) (
              field "safe_alternatives" (list (action_items result.safe_alternatives)) (
                field "policy_id" (str policy.policy_id) (
                  field "constraints" (value_or_null rt.constraints_dump result.constraints) (
                    field "network_state" (rt.network_dump state.network_state) (
                      field "geofence_state" (rt.geofence_dump state.geofence_state) (
                        field "control_plane_reachability"
                          (value_or_null (λ p. rt.model_dump (plane_message p)) plane) end))))))))))

  unfoldable pub decision_arguments :
      (deciding_actor_id : String)
      → CapabilityRequest
      → RobotStateAssertion
      → Option ControlPlaneReachabilityAssertion
      → Policy
      → PolicyResult
      → RecordArguments
  decision_arguments deciding_actor_id request state plane policy result = record {
    event_type = decision_event result.decision;
    actor_id = deciding_actor_id;
    summary = format (
        decision_text result.decision
        ∷ " "
        ∷ capability_text request.capability
        ∷ ": "
        ∷ result.reason_code
        ∷ []);
    correlation_id = request.correlation_id;
    robot_id = some request.robot_id;
    mission_id = some request.mission_id;
    payload = decision_payload request state plane policy result;
    authority_relevant = true;
    policy_id = some policy.policy_id;
    policy_digest = some (policy_digest rt policy);
    state_refs = state.message_id ∷ plane_ids plane;
    related_message_ids = request.message_id ∷ state.message_id ∷ plane_ids plane;
  }

  unfoldable pub evaluate_policy :
      Issuer
      → (deciding_actor_id : String) → RequestReplayCache
      → AuditLog
      → EventDraw
      → CapabilityRequest
      → RobotStateAssertion
      → Option ControlPlaneReachabilityAssertion
      → Policy
      → Instant
      → Option RequestReplayCache × PolicyResult × (String ⊎ (AuditLog × AuditCommit))
  evaluate_policy issuer deciding_actor_id cache log draw request state plane policy now =
      let r = evaluate_policy_inputs rt issuer (some cache) request state plane policy now in
      (
        r.0,
        r.1,
        record_event rt log draw
            (decision_arguments deciding_actor_id request state plane policy r.1),
      )

  module _ (issuer : Issuer) (actor : String) (cache : RequestReplayCache) (log : AuditLog)
      (draw : EventDraw) (request : CapabilityRequest) (state : RobotStateAssertion)
      (plane : Option ControlPlaneReachabilityAssertion) (policy : Policy) (now : Instant) where
    abbrev outcome : Option RequestReplayCache × PolicyResult × (String ⊎ (AuditLog × AuditCommit))
    outcome = evaluate_policy issuer actor cache log draw request state plane policy now
