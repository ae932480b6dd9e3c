-- ===== src/Gate/State.antt =====
-- command_gate.py: what a `CommandGate` holds. The audit log is kept as the arguments of each call of
-- `AuditLog.record`, oldest last; `fallback_sink` is the list of declarations that it was called on.
pub mod Keeps
use rclp.Prelude.{
  ℕ, Bool, true, false, not, Option, none, some, String, List, [], ◌∷◌, length, lookup, format,
  codes, len, ltb, if◌then◌else◌,
}
use rclp.Core.Float.{Float}
use rclp.Core.Value.{Value, null, bool, int, str, dict, Fields, end, field}
use rclp.Core.Models.{
  FallbackAction, local_autonomy_only, FallbackDeclaration, AuditEventType, fallback_declared,
  fallback_text, fallback_message, ed25519_signature_algorithm, supported_protocol_version,
  BaseMessage,
}
use rclp.Core.Runtime.{Runtime}
use rclp.Core.Conformance.Validate.{Config}
use rclp.Gate.Replay.{ReplayCache}
use rclp.Gate.Revocations.{RevocationStore, RevokedLease}

-- The attributes that no call changes; `validation` is what `evaluate` hands on.
pub record Gate : Type 0 where
  pub local_edge_agent_id : String
  pub validation : Config
  pub agent_public_keys_by_id : List (String × String)
  pub trusted_revoker_ids : List String
  pub revoker_public_keys_by_id : List (String × String)
  pub revoker_edge_scopes_by_id : List (String × List String)
  pub fallback_actions_by_reason : List (String × FallbackAction)
  pub max_command_age_seconds : ℕ
  pub max_revocation_age_seconds : ℕ
  pub fallback_signer : Option (FallbackDeclaration → String)
  pub fallback_authenticated_declared_by : Option String
  pub has_sink : Bool

pub record AuditEntry : Type 0 where
  pub event_type : AuditEventType
  pub actor_id : String
  pub robot_id : Option String
  pub mission_id : Option String
  pub correlation_id : String
  pub summary : String
  pub payload : Fields
  pub authority_relevant : Bool
  pub state_refs : List String
  pub related_message_ids : List String

pub record GateState : Type 0 where
  pub replay : ReplayCache
  pub store : RevocationStore
  pub revocations : List (String × RevokedLease)
  pub fallback_events : List FallbackDeclaration
  pub sunk : List FallbackDeclaration
  pub audit : List AuditEntry

pub record GateResult : Type 0 where
  pub allowed : Bool
  pub reason_code : String
  pub audit_id : Option String
  pub fallback_action : Option FallbackAction
  pub fallback_declaration : Option FallbackDeclaration

abbrev pub option_text : Option String → Value
option_text none = null
option_text (some text) = str text

-- `FallbackAction | None` in a payload.
abbrev pub option_action : Option FallbackAction → Value
option_action none = null
option_action (some action) = str (fallback_text action)

abbrev pub present_ids : List (Option String) → List String
present_ids [] = []
present_ids (none ∷ ids) = present_ids ids
present_ids (some id ∷ ids) = id ∷ present_ids ids

-- `self.audit_log.record(...)`
unfoldable pub record_audit : AuditEntry → GateState → GateState
record_audit entry g = record g { audit = entry ∷ g.audit }

-- The identifier of the newest audit event, one random draw for each.
unfoldable pub newest_audit_id : Runtime → GateState → String
newest_audit_id rt g = format ("audit_" ∷ rt.uuid_hex (length g.audit) ∷ [])

unfoldable pub local_fallback_action : Gate → String → FallbackAction
local_fallback_action gate reason = elim (lookup reason gate.fallback_actions_by_reason) [
  | none ↦ local_autonomy_only
  | some action ↦ action
]

-- The base fields that a new `FallbackDeclaration` draws; those given by name are set.
unfoldable pub fresh_base : Runtime → GateState → String → List String → BaseMessage
fresh_base rt g correlation_id fields = record {
  protocol_version = supported_protocol_version;
  message_id = format ("msg_" ∷ rt.uuid_hex (length g.fallback_events) ∷ []);
  correlation_id = correlation_id;
  created_at = rt.clock (length g.fallback_events);
  model_fields_set = fields;
}

abbrev or_declarer : Option String → String → String
or_declarer none declared_by = declared_by
or_declarer (some id) declared_by = if ltb 0 (len id) then id else declared_by

-- Signing assigns `authenticated_declared_by`, `signature_alg` and `signature`.
unfoldable pub sign_fallback :
    Gate → Option (FallbackDeclaration → String) → FallbackDeclaration → FallbackDeclaration
sign_fallback gate none declaration = declaration
sign_fallback gate (some signer) declaration =
    let prepared = record declaration {
      base = record (declaration.base) {
        model_fields_set =
            "authenticated_declared_by" ∷ "signature_alg" ∷ "signature"
            ∷ declaration.model_fields_set;
      };
      authenticated_declared_by =
          some (or_declarer gate.fallback_authenticated_declared_by declaration.declared_by);
      signature_alg = ed25519_signature_algorithm;
      signature = none;
    } in
    record prepared { signature = some (signer prepared) }

-- The fields of the dumped declaration.
abbrev dumped : Value → Fields
dumped (dict fields) = fields
dumped _ = end

-- `_emit_fallback`: the declaration that is appended, audited and sunk is the signed one.
unfoldable pub emit_fallback :
    Runtime → Gate → FallbackDeclaration → GateState → GateState × FallbackDeclaration
emit_fallback rt gate declaration g =
    let signed = sign_fallback gate gate.fallback_signer declaration in
    let appended = record g { fallback_events = signed ∷ g.fallback_events } in
    let audited =
      record_audit
        (record {
          event_type = fallback_declared;
          actor_id = signed.declared_by;
          robot_id = some signed.robot_id;
          mission_id = some signed.mission_id;
          correlation_id = signed.correlation_id;
          summary = format (
              "fallback "
              ∷ fallback_text signed.fallback_action
              ∷ " declared after "
              ∷ signed.trigger
              ∷ []);
          payload = dumped (rt.model_dump (fallback_message signed));
          authority_relevant = true;
          state_refs = [];
          related_message_ids =
              present_ids (signed.lease_id ∷ signed.decision_id ∷ signed.revocation_id ∷ []);
        })
        appended in
    (if gate.has_sink then record audited { sunk = signed ∷ audited.sunk } else audited, signed)

abbrev pub max_diagnostic_text_bytes : ℕ
max_diagnostic_text_bytes = 256

-- `_bounded_diagnostic_text`
unfoldable pub bounded_diagnostic_text : Runtime → Option String → Value
bounded_diagnostic_text rt none = null
bounded_diagnostic_text rt (some text) =
    if ltb max_diagnostic_text_bytes (len text)
    then dict (
        field "byte_length" (int false (len text)) (
          field "sha256" (str (format ("sha256:" ∷ rt.sha256_hex (codes text) ∷ [])))
            (field "truncated" (bool true) end)))
    else str text
