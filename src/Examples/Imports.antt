-- ===== src/Examples/Imports.antt =====
-- A concrete log under hashes that tell its events apart, and its import.
use rclp.Prelude.{
  ℕ, ◌≡◌, ◌⊎◌, refl, true, none, inl, inr, ◌==◌, List, [], ◌∷◌, ◌++◌, if◌then◌else◌, codes,
  contains, format, is_blank, subset,
}
use rclp.Core.Value.{
  Value, Fields, Items, null, bool, int, float, str, list, dict, end, field, nil, cons, get_field,
  field_names,
}
use rclp.Core.Hash.{stable_json_hash}
use rclp.Core.Keys.{ascii_text}
use rclp.Core.Models.{AuditCommit}
use rclp.Core.Runtime.{Runtime}
use rclp.Core.Time.{aware}
use rclp.Core.Audit.{
  payload_hash_of, append, chain_head, proof_material, append_violation, last_proof, committed,
  new_event, payload_hash_violation, record_event, integrity_proof_of, context_violation, AuditLog,
  empty_log, EventDraw, push,
}
use rclp.Core.Audit.Load.{
  load_jsonl, loaded_event_violation, any_null, raw_event_violation, import_violation, load_event,
  load_line, load_lines, load_raw, Reader, authority_chain,
}
use rclp.Core.Audit.Chain.Tamper.{AllSame, newest_onto, Forged, heads_same}
use rclp.Core.Audit.Log.{IsLog, append-IsLog}
use rclp.Core.Audit.Load.Trusted.{import_of_log}
use rclp.Examples.{runtime, clock_time}
use rclp.Examples.Audits.{draw, args}

-- A text for a value that tells the values of these examples apart.
abbrev mutual
  dumped : Value → List ℕ
  dumped null = 110 ∷ []
  dumped (bool b) = (if b then 116 else 102) ∷ []
  dumped (int negative n) = (if negative then 45 else 43) ∷ n ∷ []
  dumped (float x) = 46 ∷ []
  dumped (str text) = 34 ∷ codes text ++ (34 ∷ [])
  dumped (list items) = 91 ∷ dumped_items items
  dumped (dict fields) = 123 ∷ dumped_fields fields

  dumped_fields : Fields → List ℕ
  dumped_fields end = 125 ∷ []
  dumped_fields (field key value fields) = codes key ++ (58 ∷ dumped value ++ dumped_fields fields)

  dumped_items : Items → List ℕ
  dumped_items nil = 93 ∷ []
  dumped_items (cons value items) = dumped value ++ (44 ∷ dumped_items items)

-- A hash that is the hashed text itself.
abbrev hashing : Runtime
hashing = record runtime { json_dumps = dumped; sha256_hex = ascii_text }

abbrev second_draw : EventDraw
second_draw = record { message_hex = "d3"; audit_hex = "d4"; created_at = aware (clock_time 1) }

abbrev first_event : AuditCommit
first_event = committed hashing empty_log (new_event hashing draw args)

abbrev first_log : AuditLog
first_log = push empty_log first_event

abbrev second_event : AuditCommit
second_event = committed hashing first_log (new_event hashing second_draw args)

abbrev log : AuditLog
log = push first_log second_event

appends_first :
    append hashing empty_log (new_event hashing draw args) ≡ inr (first_log, first_event)
unfolding codes contains format stable_json_hash proof_material integrity_proof_of payload_hash_of
    payload_hash_violation context_violation last_proof chain_head append_violation committed append
    new_event record_event ascii_text
appends_first = refl

appends_second :
    append hashing first_log (new_event hashing second_draw args) ≡ inr (log, second_event)
unfolding codes contains format stable_json_hash proof_material integrity_proof_of payload_hash_of
    payload_hash_violation context_violation last_proof chain_head append_violation committed append
    new_event record_event ascii_text
appends_second = refl

first_log-IsLog : IsLog hashing first_log
first_log-IsLog =
    (append-IsLog hashing empty_log first_log (new_event hashing draw args) first_event
      (record { chain = tt; ids = refl }) appends_first).0

log-IsLog : IsLog hashing log
log-IsLog =
    (append-IsLog hashing first_log log (new_event hashing second_draw args) second_event
      first_log-IsLog appends_second).0

abbrev raw : Fields
raw = field "protocol_version" (str "0.0.1-draft") (
    field "message_id" (str "m") (
      field "audit_id" (str "audit_d2") (
        field "correlation_id" (str "mission-9") (
          field "created_at" (str "t") (
            field "message_type" (str "audit_commit") (
              field "event_type" (str "command_allowed") (
                field "actor_id" (str "edge-1") (
                  field "summary" (str "s") (
                    field "payload" (dict end) (
                      field "payload_hash" (str "h") (
                        field "authority_relevant" (bool true) (
                          field "integrity_profile" (str "p")
                            (field "integrity_proof" (str "h") end)))))))))))))

-- Reads "1" as the first event of the log and any other line as the second.
abbrev reader : Reader
reader = record {
  loads = λ line. inr (if line == "1" then field "first" (str "1") raw else raw);
  model_validate =
      λ fields. inr (if contains "first" (field_names fields) then first_event else second_event);
}

loads_log :
    load_jsonl hashing reader ("1" ∷ "" ∷ "2" ∷ []) (chain_head log) authority_chain
    ≡ inr (first_event ∷ second_event ∷ [])
unfolding codes contains format stable_json_hash proof_material integrity_proof_of payload_hash_of
    payload_hash_violation context_violation last_proof chain_head append_violation committed append
    new_event record_event ascii_text subset field_names get_field any_null raw_event_violation
    loaded_event_violation load_event load_raw load_line load_lines import_violation load_jsonl
    is_blank
loads_log = refl

import_of_log_example :
    AllSame hashing (newest_onto [] (first_event ∷ second_event ∷ [])) (newest_onto [] log.events)
    ⊎ Forged hashing (first_event ∷ second_event ∷ []) log.events
import_of_log_example =
    import_of_log hashing reader ("1" ∷ "" ∷ "2" ∷ []) log (first_event ∷ second_event ∷ [])
      log-IsLog loads_log refl

heads_same_example :
    AllSame hashing (newest_onto [] log.events) (newest_onto [] log.events)
    ⊎ Forged hashing log.events log.events
heads_same_example = heads_same hashing log.events log.events log-IsLog.chain log-IsLog.chain refl

untrusted_refused :
    load_jsonl hashing reader ("1" ∷ []) none authority_chain
    ≡ inl "trusted audit chain head required for audit import"
unfolding codes contains format stable_json_hash proof_material integrity_proof_of payload_hash_of
    payload_hash_violation context_violation last_proof chain_head append_violation committed append
    new_event record_event ascii_text subset field_names get_field any_null raw_event_violation
    loaded_event_violation load_event load_raw load_line load_lines import_violation load_jsonl
    is_blank
untrusted_refused = refl
