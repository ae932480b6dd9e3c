-- ===== src/Gate/Reject.antt =====
-- command_gate.py: `_reject_command` and `_reject_local_edge_mismatch`.
pub mod Keeps
use rclp.Prelude.{
  Bool, true, false, not, ◌&&◌, ◌||◌, Option, none, some, String, List, [], ◌∷◌, ◌==◌, lookup,
  contains, format, if◌then◌else◌,
}
use rclp.Core.Value.{Value, null, str, Fields, end, field}
use rclp.Core.Models.{
  CapabilityLease, RobotStateAssertion, EdgeCommand, FallbackDeclaration, FallbackAction,
  AuditEventType, command_rejected, diagnostic, capability_text, state_message,
  ed25519_signature_algorithm,
}
use rclp.Core.Runtime.{Runtime}
use rclp.Core.Leases.{lease_matches_context}
use rclp.Gate.Revocations.{RevokedLease}
use rclp.Gate.State.{
  Gate, GateState, GateResult, AuditEntry, option_text, option_action, record_audit,
  newest_audit_id, local_fallback_action, fresh_base, emit_fallback, bounded_diagnostic_text,
}
use rclp.Gate.Denials.{
  lease_id_of, matching_authenticated_revocation, command_correlation_id, denial_can_emit_fallback,
  fallback_action_for_denial, denial_declaration, rejected_entry, untrusted_entry,
}

abbrev lease_edge_of : Option CapabilityLease → Option String
lease_edge_of none = none
lease_edge_of (some lease) = some lease.edge_agent_id

module _ (rt : Runtime) (gate : Gate) where
  -- The result, after the fallback that goes with it, if any.
  unfoldable pub finish_rejection :
      String → Option FallbackDeclaration → GateState → String → GateState × GateResult
  finish_rejection reason none g audit_id = (
    g,
    record {
      allowed = false;
      reason_code = reason;
      audit_id = some audit_id;
      fallback_action = none;
      fallback_declaration = none;
    },
  )
  finish_rejection reason (some declaration) g audit_id =
      let (after, signed) = emit_fallback rt gate declaration g in
      (
        after,
        record {
          allowed = false;
          reason_code = reason;
          audit_id = some audit_id;
          fallback_action = some declaration.fallback_action;
          fallback_declaration = some signed;
        },
      )

  -- `_reject_command`
  unfoldable pub reject_command :
      GateState
      → EdgeCommand
      → Option CapabilityLease
      → Option RobotStateAssertion
      → String
      → Bool
      → Bool
      → GateState × GateResult
  reject_command g command lease current_state reason may_emit authority_relevant =
      let revocation = matching_authenticated_revocation g command lease reason in
      let emits = may_emit && denial_can_emit_fallback reason revocation in
      let declaration : Option FallbackDeclaration =
        if emits
        then some (denial_declaration rt gate g command lease reason revocation)
        else none in
      let fallback : Option FallbackAction =
        if emits then some (fallback_action_for_denial gate reason revocation) else none in
      let audited =
        record_audit
          (if authority_relevant
            then rejected_entry rt gate command lease current_state reason revocation fallback
            else untrusted_entry rt gate command lease reason revocation fallback)
          g in
      finish_rejection reason declaration audited (newest_audit_id rt audited)

  -- `_reject_local_edge_mismatch`
  unfoldable pub reject_local_edge_mismatch :
      GateState → EdgeCommand → Option CapabilityLease → GateState × GateResult
  reject_local_edge_mismatch g command lease =
      let audited =
        record_audit
          (record {
            event_type = command_rejected;
            actor_id = gate.local_edge_agent_id;
            robot_id = some command.robot_id;
            mission_id = some command.mission_id;
            correlation_id =
                if command.correlation_id == "" then command.command_id else command.correlation_id;
            summary =
                format ("command " ∷ command.command_id ∷ " rejected: EDGE_AGENT_MISMATCH" ∷ []);
            payload = field "command_id" (str command.command_id) (
                field "command_message_id" (str command.message_id) (
                  field "expected_edge_agent_id" (str gate.local_edge_agent_id) (
                    field "command_edge_agent_id" (str command.edge_agent_id) (
                      field "lease_id" (option_text (lease_id_of lease)) (
                        field "lease_edge_agent_id" (option_text (lease_edge_of lease))
                          (field "reason_code" (str "EDGE_AGENT_MISMATCH") end))))));
            authority_relevant = true;
            state_refs = [];
            related_message_ids = command.message_id ∷ [];
          })
          g in
      (
        audited,
        record {
          allowed = false;
          reason_code = "EDGE_AGENT_MISMATCH";
          audit_id = some (newest_audit_id rt audited);
          fallback_action = none;
          fallback_declaration = none;
        },
      )
