-- ===== src/Gate/Denials.antt =====
-- command_gate.py: whether a rejection has a fallback, and what it puts on the record.
use rclp.Prelude.{
  Bool, true, false, ◌&&◌, Option, none, some, String, List, [], ◌∷◌, ◌==◌, lookup, contains,
  format, if◌then◌else◌,
}
use rclp.Core.Value.{str, Fields, end, field}
use rclp.Core.Models.{
  CapabilityLease, RobotStateAssertion, EdgeCommand, FallbackDeclaration, FallbackAction,
  command_rejected, diagnostic, capability_text, state_message, ed25519_signature_algorithm,
}
use rclp.Core.Runtime.{Runtime}
use rclp.Core.Leases.{lease_matches_context}
use rclp.Gate.Revocations.{RevokedLease}
use rclp.Gate.State.{
  Gate, GateState, AuditEntry, option_text, option_action, local_fallback_action, fresh_base,
  bounded_diagnostic_text,
}

abbrev pub lease_id_of : Option CapabilityLease → Option String
lease_id_of none = none
lease_id_of (some lease) = some lease.lease_id

-- The context that the stored revocation and the command must share with the lease.
abbrev same_context : EdgeCommand → CapabilityLease → RevokedLease → Bool
same_context command lease revocation =
    (revocation.issuer_id == lease.issuer_id)
    && (revocation.agent_id == lease.agent_id)
    && (revocation.edge_agent_id == lease.edge_agent_id)
    && (revocation.robot_id == lease.robot_id)
    && (revocation.mission_id == lease.mission_id)
    && (revocation.capability == capability_text lease.capability)
    && lease_matches_context lease command.agent_id command.edge_agent_id command.robot_id
        command.mission_id command.capability

unfoldable pub matched : EdgeCommand → CapabilityLease → Option RevokedLease → Option RevokedLease
matched command lease none = none
matched command lease (some revocation) =
    if same_context command lease revocation then some revocation else none

-- `_matching_authenticated_revocation`
unfoldable pub matching_authenticated_revocation :
    GateState → EdgeCommand → Option CapabilityLease → String → Option RevokedLease
matching_authenticated_revocation g command none reason = none
matching_authenticated_revocation g command (some lease) reason =
    if reason == "LEASE_REVOKED"
    then matched command lease (lookup lease.lease_id g.revocations)
    else none

abbrev or_correlation : Option String → String → String
or_correlation none correlation = correlation
or_correlation (some correlation) other = correlation

-- `_command_correlation_id`: a command always has a correlation of its own.
unfoldable pub command_correlation_id : EdgeCommand → Option RevokedLease → String
command_correlation_id command none = command.correlation_id
command_correlation_id command (some revocation) =
    or_correlation revocation.correlation_id command.correlation_id

abbrev pub state_fallback_denial_reasons : List String
state_fallback_denial_reasons =
    "NETWORK_LATENCY_TOO_HIGH" ∷ "NETWORK_PACKET_LOSS_TOO_HIGH" ∷ "NETWORK_UPLINK_TOO_LOW"
    ∷ "NETWORK_DETACHED" ∷ "NETWORK_STATE_UNKNOWN" ∷ "GEOFENCE_CONSTRAINT_VIOLATED" ∷ []

abbrev pub is_some {ℓ} : {A : Type ℓ} → Option A → Bool
is_some none = false
is_some (some a) = true

-- `_denial_can_emit_fallback`
unfoldable pub denial_can_emit_fallback : String → Option RevokedLease → Bool
denial_can_emit_fallback reason revocation =
    if reason == "LEASE_REVOKED"
    then is_some revocation
    else contains reason state_fallback_denial_reasons

-- `_fallback_action_for_denial`
unfoldable pub fallback_action_for_denial : Gate → String → Option RevokedLease → FallbackAction
fallback_action_for_denial gate reason none = local_fallback_action gate reason
fallback_action_for_denial gate reason (some revocation) =
    local_fallback_action gate
      (if reason == "LEASE_REVOKED" then revocation.reason_code else reason)

abbrev revocation_id_of : Option RevokedLease → Option String
revocation_id_of none = none
revocation_id_of (some revocation) = revocation.revocation_id

module _ (rt : Runtime) (gate : Gate) where
  unfoldable pub denial_declaration :
      GateState
      → EdgeCommand
      → Option CapabilityLease
      → String
      → Option RevokedLease
      → FallbackDeclaration
  denial_declaration g command lease reason revocation = record {
    base = fresh_base rt g (command_correlation_id command revocation) (
        "correlation_id" ∷ "robot_id" ∷ "edge_agent_id" ∷ "mission_id" ∷ "trigger"
        ∷ "fallback_action" ∷ "declared_by" ∷ "lease_id" ∷ "revocation_id" ∷ []);
    robot_id = command.robot_id;
    edge_agent_id = command.edge_agent_id;
    mission_id = command.mission_id;
    trigger = reason;
    fallback_action = fallback_action_for_denial gate reason revocation;
    declared_by = command.edge_agent_id;
    authenticated_declared_by = none;
    lease_id = lease_id_of lease;
    decision_id = none;
    revocation_id = revocation_id_of revocation;
    signature_alg = ed25519_signature_algorithm;
    signature = none;
  }

  -- `payload["current_state"]`, where there is a state.
  unfoldable pub with_state : Option RobotStateAssertion → Fields
  with_state none = end
  with_state (some state) = field "current_state" (rt.model_dump (state_message state)) end

  abbrev pub state_ids : Option RobotStateAssertion → List String
  state_ids none = []
  state_ids (some state) = state.message_id ∷ []

  -- The audit entry of a rejected command that was authenticated.
  unfoldable pub rejected_entry :
      EdgeCommand
      → Option CapabilityLease
      → Option RobotStateAssertion
      → String
      → Option RevokedLease
      → Option FallbackAction
      → AuditEntry
  rejected_entry command lease current_state reason revocation fallback = record {
    event_type = command_rejected;
    actor_id = command.edge_agent_id;
    robot_id = some command.robot_id;
    mission_id = some command.mission_id;
    correlation_id = command_correlation_id command revocation;
    summary = format ("command " ∷ command.command_id ∷ " rejected: " ∷ reason ∷ []);
    payload = field "command_id" (str command.command_id) (
        field "command_message_id" (str command.message_id) (
          field "agent_id" (str command.agent_id) (
            field "authenticated_agent_id" (option_text command.authenticated_agent_id) (
              field "edge_agent_id" (str command.edge_agent_id) (
                field "robot_id" (str command.robot_id) (
                  field "mission_id" (str command.mission_id) (
                    field "capability" (str command.capability) (
                      field "command_nonce" (str command.command_nonce) (
                        field "lease_id" (option_text (lease_id_of lease)) (
                          field "reason_code" (str reason) (
                            field "fallback_action" (option_action fallback)
                              (with_state current_state))))))))))));
    authority_relevant = true;
    state_refs = state_ids current_state;
    related_message_ids = command.message_id ∷ state_ids current_state;
  }

  -- The audit entry of a command that was not: only claims, cut to a bounded size.
  unfoldable pub untrusted_entry :
      EdgeCommand
      → Option CapabilityLease
      → String
      → Option RevokedLease
      → Option FallbackAction
      → AuditEntry
  untrusted_entry command lease reason revocation fallback =
      let claim = λ (text : String). bounded_diagnostic_text rt (some text) in
      record {
        event_type = diagnostic;
        actor_id = "local_command_gate";
        robot_id = none;
        mission_id = none;
        correlation_id = command_correlation_id command revocation;
        summary = format ("untrusted command rejected: " ∷ reason ∷ []);
        payload = field "claimed_command_id" (claim command.command_id) (
            field "claimed_command_message_id" (claim command.message_id) (
              field "claimed_agent_id" (claim command.agent_id) (
                field "claimed_authenticated_agent_id"
                  (bounded_diagnostic_text rt command.authenticated_agent_id)
                  (field "claimed_edge_agent_id" (claim command.edge_agent_id) (
                    field "claimed_robot_id" (claim command.robot_id) (
                      field "claimed_mission_id" (claim command.mission_id) (
                        field "claimed_capability" (claim command.capability) (
                          field "claimed_command_nonce" (claim command.command_nonce) (
                            field "claimed_lease_id"
                              (bounded_diagnostic_text rt (lease_id_of lease))
                              (field "reason_code" (str reason)
                                (field "fallback_action" (option_action fallback) end)))))))))));
        authority_relevant = false;
        state_refs = [];
        related_message_ids = [];
      }
