-- ===== src/Core/Audit.antt =====
-- audit.py: `AuditLog`, a hash chain of events, oldest first. An exception is a text on the left.
pub mod Chain
pub mod Log
pub mod Batch
pub mod Load
use rclp.Prelude.{
  ℕ, Bool, true, false, not, ◌&&◌, ◌||◌, ◌⊎◌, inl, inr, Option, none, some, String, List, [], ◌∷◌,
  ◌++◌, ◌==◌, contains, format, Violation, reject_if, ◌<|>◌, if◌then◌else◌,
}
use rclp.Core.Value.{Value, null, bool, str, list, dict, Items, nil, cons, Fields, end, field}
use rclp.Core.Time.{Timestamp}
use rclp.Core.Models.{
  AuditCommit, AuditEventType, event_text, demo_setup, diagnostic, supported_protocol_version,
}
use rclp.Core.Runtime.{Runtime}
use rclp.Core.Hash.{stable_json_hash}

pub record AuditLog : Type 0 where
  pub events : List AuditCommit
  pub audit_ids : List String

abbrev pub empty_log : AuditLog
empty_log = record { events = []; audit_ids = [] }

-- `event.event_type in AUTHORITY_EVENT_TYPES`
abbrev pub is_authority_event : AuditEventType → Bool
is_authority_event demo_setup = false
is_authority_event diagnostic = false
is_authority_event _ = true

-- A missing text, and comparisons with `None`.
abbrev pub missing : Option String → Bool
missing none = true
missing (some text) = false

abbrev pub same_option : Option String → Option String → Bool
same_option none none = true
same_option (some a) (some b) = a == b
same_option _ _ = false

abbrev pub option_value : Option String → Value
option_value none = null
option_value (some text) = str text

abbrev pub text_items : List String → Items
text_items [] = nil
text_items (text ∷ texts) = cons (str text) (text_items texts)

-- `_validate_context`
unfoldable pub context_violation : AuditCommit → Violation
context_violation event =
    if is_authority_event event.event_type
    then reject_if (not event.authority_relevant) "authority event type must be authority_relevant"
      <|> reject_if (missing event.robot_id || missing event.mission_id)
          "authority-relevant audit event requires robot_id and mission_id"
    else none

-- The proof of the newest event, `events[-1].integrity_proof`, or what was before the events.
unfoldable pub last_proof : Option String → List AuditCommit → Option String
last_proof previous [] = previous
last_proof previous (event ∷ events) = last_proof event.integrity_proof events

unfoldable pub chain_head : AuditLog → Option String
chain_head log = last_proof none log.events

abbrev pub given_and_other : Option String → Option String → Bool
given_and_other none expected = false
given_and_other (some given) expected = not (same_option (some given) expected)

-- `event.previous_audit_hash or previous_hash`
abbrev pub or_previous : Option String → Option String → Option String
or_previous none previous = previous
or_previous (some hash) previous = if hash == "" then previous else some hash

abbrev pub push : AuditLog → AuditCommit → AuditLog
push log event = record {
  events = log.events ++ (event ∷ []);
  audit_ids = event.audit_id ∷ log.audit_ids;
}

abbrev pub raise_or_push : Violation → AuditLog → AuditCommit → String ⊎ (AuditLog × AuditCommit)
raise_or_push none log event = inr (push log event, event)
raise_or_push (some message) log event = inl message

-- What a new `AuditCommit` draws: two identifiers and the time.
pub record EventDraw : Type 0 where
  pub message_hex : String
  pub audit_hex : String
  pub created_at : Timestamp

-- The arguments of `record`; a list or a payload that is left out is empty.
pub record RecordArguments : Type 0 where
  pub event_type : AuditEventType
  pub actor_id : String
  pub summary : String
  pub correlation_id : String
  pub robot_id : Option String
  pub mission_id : Option String
  pub payload : Fields
  pub authority_relevant : Bool
  pub policy_id : Option String
  pub policy_digest : Option String
  pub state_refs : List String
  pub related_message_ids : List String

module _ (rt : Runtime) where
  -- The dictionary whose hash is the proof of an event.
  unfoldable pub proof_material : AuditCommit → Option String → Value
  proof_material event previous_hash = dict (
      field "audit_id" (str event.audit_id) (
        field "message_id" (str event.message_id) (
          field "message_type" (str "audit_commit") (
            field "protocol_version" (str event.protocol_version) (
              field "correlation_id" (str event.correlation_id) (
                field "created_at" (str (rt.str_datetime event.created_at)) (
                  field "event_type" (str (event_text event.event_type)) (
                    field "actor_id" (str event.actor_id) (
                      field "robot_id" (option_value event.robot_id) (
                        field "mission_id" (option_value event.mission_id) (
                          field "summary" (str event.summary) (
                            field "payload_hash" (option_value event.payload_hash) (
                              field "authority_relevant" (bool event.authority_relevant) (
                                field "integrity_profile" (str event.integrity_profile) (
                                  field "policy_id" (option_value event.policy_id) (
                                    field "policy_digest" (option_value event.policy_digest) (
                                      field "state_refs" (list (text_items event.state_refs)) (
                                        field "related_message_ids"
                                          (list (text_items event.related_message_ids))
                                          (field "previous_audit_hash" (option_value previous_hash)
                                            end)))))))))))))))))))

  -- `_integrity_proof`
  unfoldable pub integrity_proof_of : AuditCommit → Option String → String
  integrity_proof_of event previous_hash = stable_json_hash rt (proof_material event previous_hash)

  unfoldable pub payload_hash_of : Fields → String
  payload_hash_of payload = stable_json_hash rt (dict payload)

  -- `_validate_payload_hash`
  unfoldable pub payload_hash_violation : AuditCommit → Violation
  payload_hash_violation event =
      reject_if (not (same_option event.payload_hash (some (payload_hash_of event.payload))))
        "payload_hash does not match audit payload"

  unfoldable pub append_violation : AuditLog → AuditCommit → Violation
  append_violation log event =
      reject_if (contains event.audit_id log.audit_ids)
        (format ("duplicate audit_id: " ∷ event.audit_id ∷ []))
      <|> context_violation event
      <|> payload_hash_violation event
      <|> reject_if (given_and_other event.previous_audit_hash (chain_head log))
          "previous_audit_hash does not match audit chain"
      <|> reject_if
          (given_and_other event.integrity_proof (some (integrity_proof_of event (chain_head log))))
          "integrity_proof does not match audit event"

  -- The event with the updates of `append`.
  unfoldable pub committed : AuditLog → AuditCommit → AuditCommit
  committed log event = record event {
    base = record (event.base) {
      model_fields_set = "previous_audit_hash" ∷ "integrity_proof" ∷ event.model_fields_set;
    };
    previous_audit_hash = or_previous event.previous_audit_hash (chain_head log);
    integrity_proof = some (integrity_proof_of event (chain_head log));
  }

  unfoldable pub append : AuditLog → AuditCommit → String ⊎ (AuditLog × AuditCommit)
  append log event = raise_or_push (append_violation log event) log (committed log event)

  -- The event that `record` makes; its validator fills in the hash of the payload.
  unfoldable pub new_event : EventDraw → RecordArguments → AuditCommit
  new_event draw args = record {
    base = record {
      protocol_version = supported_protocol_version;
      message_id = format ("msg_" ∷ draw.message_hex ∷ []);
      correlation_id = args.correlation_id;
      created_at = draw.created_at;
      model_fields_set =
          "correlation_id" ∷ "event_type" ∷ "actor_id" ∷ "robot_id" ∷ "mission_id" ∷ "summary"
          ∷ "payload" ∷ "authority_relevant" ∷ "policy_id" ∷ "policy_digest" ∷ "state_refs"
          ∷ "related_message_ids" ∷ "payload_hash" ∷ [];
    };
    audit_id = format ("audit_" ∷ draw.audit_hex ∷ []);
    event_type = args.event_type;
    actor_id = args.actor_id;
    robot_id = args.robot_id;
    mission_id = args.mission_id;
    summary = args.summary;
    payload = args.payload;
    payload_hash = some (payload_hash_of args.payload);
    authority_relevant = args.authority_relevant;
    integrity_profile = "local_hash_chain_v0";
    integrity_proof = none;
    previous_audit_hash = none;
    policy_id = args.policy_id;
    policy_digest = args.policy_digest;
    state_refs = args.state_refs;
    related_message_ids = args.related_message_ids;
  }

  -- The method `record`.
  unfoldable pub record_event :
      AuditLog → EventDraw → RecordArguments → String ⊎ (AuditLog × AuditCommit)
  record_event log draw args = append log (new_event draw args)
