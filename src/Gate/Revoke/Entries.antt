-- ===== src/Gate/Revoke/Entries.antt =====
-- command_gate.py: what `CommandGate.revoke` puts on the record.
use rclp.Prelude.{
  Bool, true, false, Option, none, some, String, List, [], ◌∷◌, ◌==◌, format, if◌then◌else◌,
}
use rclp.Core.Value.{Value, null, str, list, Items, nil, cons, Fields, end, field}
use rclp.Core.Models.{
  CapabilityLease, LeaseRevocation, Capability, capability_text, FallbackAction, fallback_text,
  AuditEventType, lease_revoked, revocation_rejected, diagnostic,
}
use rclp.Core.Runtime.{Runtime}
use rclp.Gate.State.{AuditEntry, option_text, bounded_diagnostic_text}

-- `a or b` on texts.
abbrev pub or_text : String → String → String
or_text a b = if a == "" then b else a

abbrev pub related : String → List String
related id = if id == "" then [] else id ∷ []

abbrev option_capability : Option Capability → Value
option_capability none = null
option_capability (some capability) = str (capability_text capability)

abbrev texts : List String → Items
texts [] = nil
texts (t ∷ ts) = cons (str t) (texts ts)

-- An event about a lease, with the context of the lease.
unfoldable pub lease_entry :
    AuditEventType → CapabilityLease → String → String → String → Fields → List String → AuditEntry
lease_entry event_type lease actor correlation summary payload related_ids = record {
  event_type = event_type;
  actor_id = actor;
  robot_id = some lease.robot_id;
  mission_id = some lease.mission_id;
  correlation_id = correlation;
  summary = summary;
  payload = payload;
  authority_relevant = true;
  state_refs = [];
  related_message_ids = related_ids;
}

module _ (rt : Runtime) where
  unfoldable pub raw_id_entry : CapabilityLease → String → AuditEntry
  raw_id_entry lease raw =
      lease_entry revocation_rejected lease "local_command_gate" lease.lease_id
        "raw lease-id revocation rejected because protocol context is required"
        (field "claimed_lease_id" (bounded_diagnostic_text rt (some raw))
          (field "reason_code" (str "REVOCATION_CONTEXT_REQUIRED") end))
        []

  unfoldable pub no_lease_entry : LeaseRevocation → AuditEntry
  no_lease_entry revocation = record {
    event_type = diagnostic;
    actor_id = "local_command_gate";
    robot_id = none;
    mission_id = none;
    correlation_id = or_text revocation.correlation_id revocation.lease_id;
    summary = "revocation rejected because lease context is required";
    payload = field "lease_id" (str revocation.lease_id) (
        field "reason_code" (str "REVOCATION_CONTEXT_REQUIRED") (
          field "revocation_id" (str revocation.message_id) (
            field "claimed_revoked_by" (bounded_diagnostic_text rt (some revocation.revoked_by))
              end)));
    authority_relevant = false;
    state_refs = [];
    related_message_ids = [];
  }

  module _ (revocation : LeaseRevocation) (lease : CapabilityLease) where
    -- `_record_revocation_rejected`
    unfoldable pub rejected_revocation : String → String → Bool → AuditEntry
    rejected_revocation reason summary true =
        lease_entry revocation_rejected lease revocation.revoked_by
          (or_text revocation.correlation_id lease.lease_id) summary
          (field "lease_id" (str revocation.lease_id) (
            field "revocation_id" (str revocation.message_id) (
              field "revoked_by" (str revocation.revoked_by)
                (field "reason_code" (str reason) end))))
          (revocation.message_id ∷ [])
    rejected_revocation reason summary false =
        lease_entry revocation_rejected lease "local_command_gate"
          (or_text revocation.correlation_id lease.lease_id) summary
          (field "lease_id" (str revocation.lease_id) (
            field "revocation_id" (str revocation.message_id) (
              field "claimed_revoked_by" (bounded_diagnostic_text rt (some revocation.revoked_by))
                (field "reason_code" (str reason) end))))
          []

    unfoldable pub not_local_entry : String → AuditEntry
    not_local_entry local_edge =
        lease_entry revocation_rejected lease "local_command_gate"
          (or_text revocation.correlation_id revocation.lease_id)
          "revocation rejected because edge context is not local"
          (field "lease_id" (str revocation.lease_id) (
            field "revocation_id" (str revocation.message_id) (
              field "claimed_revoked_by" (bounded_diagnostic_text rt (some revocation.revoked_by)) (
                field "expected_edge_agent_id" (str local_edge) (
                  field "revocation_edge_agent_id"
                    (bounded_diagnostic_text rt (some revocation.edge_agent_id))
                    (field "lease_edge_agent_id" (str lease.edge_agent_id)
                      (field "reason_code" (str "REVOCATION_EDGE_AGENT_MISMATCH") end)))))))
          []

    unfoldable pub not_trusted_entry : AuditEntry
    not_trusted_entry =
        lease_entry revocation_rejected lease "local_command_gate"
          (or_text revocation.correlation_id revocation.lease_id)
          "revocation rejected because actor is not trusted"
          (field "lease_id" (str revocation.lease_id) (
            field "revocation_id" (str revocation.message_id) (
              field "claimed_revoked_by" (bounded_diagnostic_text rt (some revocation.revoked_by))
                (field "reason_code" (str "REVOCATION_ACTOR_NOT_TRUSTED") end))))
          []

    unfoldable pub not_scoped_entry : List String → AuditEntry
    not_scoped_entry scope =
        lease_entry revocation_rejected lease revocation.revoked_by
          (or_text revocation.correlation_id revocation.lease_id)
          "revocation rejected because actor is not scoped to lease edge"
          (field "lease_id" (str revocation.lease_id) (
            field "revocation_id" (str revocation.message_id) (
              field "revoked_by" (str revocation.revoked_by) (
                field "revoker_edge_scope" (list (texts scope)) (
                  field "revocation_edge_agent_id" (str revocation.edge_agent_id) (
                    field "lease_edge_agent_id" (str lease.edge_agent_id)
                      (field "reason_code" (str "REVOCATION_ACTOR_SCOPE_MISMATCH") end)))))))
          (related revocation.message_id)

    unfoldable pub other_lease_entry : AuditEntry
    other_lease_entry =
        lease_entry revocation_rejected lease revocation.revoked_by
          (or_text revocation.correlation_id lease.lease_id)
          "revocation rejected because lease_id does not match lease"
          (field "revocation_lease_id" (str revocation.lease_id) (
            field "lease_id" (str lease.lease_id)
              (field "reason_code" (str "REVOCATION_LEASE_MISMATCH") end)))
          (related revocation.message_id)

    unfoldable pub other_context_entry : AuditEntry
    other_context_entry =
        lease_entry revocation_rejected lease revocation.revoked_by
          (or_text revocation.correlation_id lease.lease_id)
          "revocation rejected because context does not match lease"
          (field "revocation_lease_id" (str revocation.lease_id) (
            field "lease_id" (str lease.lease_id) (
              field "revocation_edge_agent_id" (str revocation.edge_agent_id) (
                field "lease_edge_agent_id" (str lease.edge_agent_id) (
                  field "revocation_robot_id" (option_text revocation.robot_id) (
                    field "lease_robot_id" (str lease.robot_id) (
                      field "revocation_mission_id" (option_text revocation.mission_id) (
                        field "lease_mission_id" (str lease.mission_id) (
                          field "revocation_capability" (option_capability revocation.capability) (
                            field "lease_capability" (str (capability_text lease.capability)) (
                              field "reason_code" (str "REVOCATION_CONTEXT_MISMATCH") end)))))))))))
          (related revocation.message_id)

    unfoldable pub revoked_entry : FallbackAction → AuditEntry
    revoked_entry fallback =
        lease_entry lease_revoked lease revocation.revoked_by
          (or_text revocation.correlation_id lease.lease_id)
          (format ("lease " ∷ revocation.lease_id ∷ " revoked: " ∷ revocation.reason_code ∷ []))
          (field "lease_id" (str revocation.lease_id) (
            field "reason_code" (str revocation.reason_code) (
              field "requested_fallback_action" (str (fallback_text revocation.fallback_action)) (
                field "fallback_action" (str (fallback_text fallback))
                  (field "revocation_id" (str revocation.message_id) end)))))
          (related revocation.message_id)
