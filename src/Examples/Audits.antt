-- ===== src/Examples/Audits.antt =====
-- A concrete audit log and a batch of it.
use rclp.Core.Audit.{
  payload_hash_of, append, chain_head, proof_material, append_violation, last_proof, committed,
  new_event, payload_hash_violation, record_event, integrity_proof_of, context_violation, AuditLog,
  empty_log, EventDraw, RecordArguments, push,
}
use rclp.Core.Base64.{digit, b64}
use rclp.Prelude.{
  contains, is_blank, codes, lookup, format, ◌≡◌, ◌↔◌, refl, true, false, none, some, inr, [], ◌∷◌,
  is_empty,
}
use rclp.Core.Keys.{ascii_text, public_key_b64, sign}
use rclp.Core.Audit.Batch.{
  batch_texts, audit_batch_hash, begins_with, audit_batch_signed_material_too_large,
  batch_commit_violation, create_signed_audit_batch, unsigned_batch, audit_batch_payload, BatchDraw,
  with_batch_signature, audit_batch_event_violation, audit_batch_auth_violation,
}
use rclp.Core.Audit.Chain.{
  events_chain_violation, event_chain_violation, audit_batch_chain_violation, IsAttributed,
}
use rclp.Core.Hash.{stable_json_hash}
use rclp.Core.Value.{str, end, field}
use rclp.Core.Crypto.{canonical_json}
use rclp.Core.Models.{unsigned, AuditCommit, AuditBatchCommit, command_allowed, batch_message}
use rclp.Core.Budget.{budget_exceeded}
use rclp.Core.Time.{aware}
use rclp.Core.Audit.Log.{IsLog, append-IsLog, record_event_iff, after_appends, appended_chain}
use rclp.Core.Audit.Batch.Accepted.{created_batch_accepted}
use rclp.Examples.{runtime, base_of, clock_time}
use rclp.Examples.Trusts.{pair, pair-IsEd25519}

abbrev pub draw : EventDraw
draw = record { message_hex = "d1"; audit_hex = "d2"; created_at = aware (clock_time 0) }

abbrev pub args : RecordArguments
args = record {
  event_type = command_allowed;
  actor_id = "edge-1";
  summary = "command allowed";
  correlation_id = "mission-9";
  robot_id = some "robot-1";
  mission_id = some "mission-9";
  payload = field "command_id" (str "command-1") end;
  authority_relevant = true;
  policy_id = none;
  policy_digest = none;
  state_refs = [];
  related_message_ids = "command-1" ∷ [];
}

abbrev event : AuditCommit
event = committed runtime empty_log (new_event runtime draw args)

abbrev log : AuditLog
log = push empty_log event

appends : append runtime empty_log (new_event runtime draw args) ≡ inr (log, event)
unfolding codes contains format stable_json_hash proof_material integrity_proof_of payload_hash_of
    payload_hash_violation context_violation last_proof chain_head append_violation committed append
    new_event record_event
appends = refl

pub empty-IsLog : IsLog runtime empty_log
empty-IsLog = record { chain = tt; ids = refl }

append-IsLog_example : IsLog runtime log × (log.events ≡ event ∷ [])
append-IsLog_example =
    append-IsLog runtime empty_log log (new_event runtime draw args) event empty-IsLog appends

record_event_iff_example :
    ((after : AuditLog × AuditCommit) × (record_event runtime empty_log draw args ≡ inr after)) ↔ (
      (contains (new_event runtime draw args).audit_id [] ≡ false)
      × IsAttributed (new_event runtime draw args))
record_event_iff_example = record_event_iff runtime empty_log draw args

-- The second offer has the identifier of the first and is dropped.
one_left :
    is_empty
      (after_appends runtime empty_log
        (new_event runtime draw args ∷ new_event runtime draw args ∷ [])).events
    ≡ false
unfolding codes contains format stable_json_hash proof_material integrity_proof_of payload_hash_of
    payload_hash_violation context_violation last_proof chain_head append_violation committed append
    new_event record_event
one_left = refl

appended_chain_example :
    audit_batch_chain_violation runtime
      (after_appends runtime empty_log
        (new_event runtime draw args ∷ new_event runtime draw args ∷ [])).events
    ≡ none
appended_chain_example =
    appended_chain runtime (new_event runtime draw args ∷ new_event runtime draw args ∷ []) one_left

abbrev batch_draw : BatchDraw
batch_draw = record { base = base_of "batch-1" []; batch_hex = "e1" }

abbrev batch : AuditBatchCommit
batch =
    with_batch_signature (λ b. sign runtime pair (batch_message b))
      (unsigned_batch runtime batch_draw log.events "edge-1" none)

creates :
    create_signed_audit_batch runtime batch_draw log.events "edge-1"
      (λ b. sign runtime pair (batch_message b))
      none
    ≡ inr batch
unfolding codes contains format stable_json_hash proof_material integrity_proof_of payload_hash_of
    payload_hash_violation context_violation last_proof chain_head append_violation committed append
    new_event record_event begins_with is_blank event_chain_violation events_chain_violation
    audit_batch_chain_violation batch_commit_violation audit_batch_payload audit_batch_hash
    unsigned_batch create_signed_audit_batch batch_texts audit_batch_signed_material_too_large
    budget_exceeded sign public_key_b64 ascii_text b64 digit canonical_json unsigned lookup
creates = refl

small_batch : audit_batch_signed_material_too_large runtime batch ≡ false
unfolding codes contains format stable_json_hash proof_material integrity_proof_of payload_hash_of
    payload_hash_violation context_violation last_proof chain_head append_violation committed append
    new_event record_event begins_with is_blank event_chain_violation events_chain_violation
    audit_batch_chain_violation batch_commit_violation audit_batch_payload audit_batch_hash
    unsigned_batch create_signed_audit_batch batch_texts audit_batch_signed_material_too_large
    budget_exceeded sign public_key_b64 ascii_text b64 digit canonical_json unsigned lookup
small_batch = refl

known_signer : lookup "edge-1" (("edge-1", public_key_b64 pair) ∷ []) ≡ some (public_key_b64 pair)
unfolding lookup
known_signer = refl

created_batch_accepted_example :
    (audit_batch_event_violation runtime batch log.events ≡ none)
    × (audit_batch_auth_violation runtime batch (("edge-1", public_key_b64 pair) ∷ []) ≡ none)
created_batch_accepted_example =
    created_batch_accepted runtime batch_draw log.events "edge-1" pair batch
      (("edge-1", public_key_b64 pair) ∷ []) creates pair-IsEd25519 known_signer small_batch
