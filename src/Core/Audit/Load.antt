-- ===== src/Core/Audit/Load.antt =====
-- audit.py: `load_jsonl` over the lines of a file. `json.loads` of a line and `AuditCommit.model_validate`
-- are parameters; either raises a text.
pub mod Trusted
use rclp.Prelude.{
  ◌≡◌, refl, ◌↔◌, ◌⊎◌, inl, inr, Bool, true, false, not, ◌&&◌, ◌||◌, Option, none, some, String,
  List, [], ◌∷◌, ◌++◌, ◌==◌, arith, contains, subset, is_blank, is_empty, format, Violation,
  reject_if, ◌<|>◌, if◌then◌else◌,
}
use rclp.Core.Value.{Value, null, Fields, get_field, field_names}
use rclp.Core.Models.{AuditCommit}
use rclp.Core.Runtime.{Runtime}
use rclp.Core.Audit.{
  is_authority_event, same_option, context_violation, payload_hash_violation, integrity_proof_of,
  last_proof, missing,
}

pub data AuditImportProfile : Type 0 where
  authority_chain diagnostic_only unsupported_profile : AuditImportProfile

pub record Reader : Type 0 where
  pub loads : String → String ⊎ Fields
  pub model_validate : Fields → String ⊎ AuditCommit

abbrev pub load_required_fields : List String
load_required_fields =
    "protocol_version" ∷ "message_id" ∷ "audit_id" ∷ "correlation_id" ∷ "created_at"
    ∷ "message_type" ∷ "event_type" ∷ "actor_id" ∷ "summary" ∷ "payload" ∷ "payload_hash"
    ∷ "authority_relevant" ∷ "integrity_profile" ∷ "integrity_proof" ∷ []

abbrev is_null : Option Value → Bool
is_null (some null) = true
is_null _ = false

-- Some of the keys is there with `None`.
unfoldable pub any_null : List String → Fields → Bool
any_null [] raw = false
any_null (key ∷ keys) raw = is_null (get_field key raw) || any_null keys raw

-- The names that the messages list are left out.
unfoldable pub raw_event_violation : Fields → Violation
raw_event_violation raw =
    reject_if (not (subset load_required_fields (field_names raw)))
      "audit event missing required fields"
    <|> reject_if (any_null load_required_fields raw) "audit event required fields cannot be null"

-- The state of the loop; the events are oldest first.
pub record Loading : Type 0 where
  pub events : List AuditCommit
  pub audit_ids : List String
  pub previous_hash : Option String
  pub authority_events : Bool

abbrev pub not_started : Loading
not_started = record { events = []; audit_ids = []; previous_hash = none; authority_events = false }

abbrev pub bind_result : {A B : Type 0} → String ⊎ A → (A → String ⊎ B) → String ⊎ B
bind_result (inl message) rest = inl message
bind_result (inr a) rest = rest a

abbrev pub unless_raised : {A : Type 0} → Violation → String ⊎ A → String ⊎ A
unless_raised none rest = rest
unless_raised (some message) rest = inl message

abbrev pub with_event : Loading → AuditCommit → Loading
with_event loading event = record {
  events = loading.events ++ (event ∷ []);
  audit_ids = event.audit_id ∷ loading.audit_ids;
  previous_hash = event.integrity_proof;
  authority_events =
      loading.authority_events || event.authority_relevant || is_authority_event event.event_type;
}

-- The checks after the loop.
unfoldable pub import_violation : AuditImportProfile → Option String → Loading → Violation
import_violation diagnostic_only trusted_chain_head loading =
    reject_if loading.authority_events
      "diagnostic-only audit import cannot include authority events"
import_violation _ trusted_chain_head loading =
    if is_empty loading.events
    then none
    else reject_if (missing trusted_chain_head) "trusted audit chain head required for audit import"
      <|> reject_if (not (same_option trusted_chain_head loading.previous_hash))
          "trusted audit chain head does not match audit chain"

abbrev pub import_profile_violation : AuditImportProfile → Violation
import_profile_violation unsupported_profile = some "unsupported audit import profile"
import_profile_violation _ = none

module _ (rt : Runtime) where
  unfoldable pub loaded_event_violation : Loading → AuditCommit → Violation
  loaded_event_violation loading event =
      reject_if (contains event.audit_id loading.audit_ids)
        (format ("duplicate audit_id: " ∷ event.audit_id ∷ []))
      <|> context_violation event
      <|> payload_hash_violation rt event
      <|> reject_if (not (same_option event.previous_audit_hash loading.previous_hash))
          "previous_audit_hash does not match audit chain"
      <|> reject_if
          (not (
            same_option event.integrity_proof
              (some (integrity_proof_of rt event loading.previous_hash))))
          "integrity_proof does not match audit event"

  unfoldable pub load_event : Loading → AuditCommit → String ⊎ Loading
  load_event loading event =
      unless_raised (loaded_event_violation loading event) (inr (with_event loading event))

  unfoldable pub load_raw : Reader → Loading → Fields → String ⊎ Loading
  load_raw reader loading raw =
      unless_raised (raw_event_violation raw)
        (bind_result (reader.model_validate raw) (load_event loading))

  unfoldable pub load_line : Reader → Loading → String → String ⊎ Loading
  load_line reader loading line =
      if is_blank line
      then inr loading
      else bind_result (reader.loads line) (load_raw reader loading)

  unfoldable pub load_lines : Reader → Loading → List String → String ⊎ Loading
  load_lines reader loading [] = inr loading
  load_lines reader loading (line ∷ lines) =
      bind_result (load_line reader loading line) λ next. load_lines reader next lines

  unfoldable pub load_jsonl :
      Reader
      → List String
      → (trusted_chain_head : Option String) → AuditImportProfile
      → String ⊎ List AuditCommit
  load_jsonl reader lines trusted_chain_head import_profile =
      unless_raised (import_profile_violation import_profile) (
        bind_result (load_lines reader not_started lines) λ loading.
          unless_raised (import_violation import_profile trusted_chain_head loading)
            (inr loading.events))
