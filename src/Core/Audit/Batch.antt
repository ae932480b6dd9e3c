-- ===== src/Core/Audit/Batch.antt =====
-- audit.py: batches of events that an actor signs.
pub mod Accepted
use rclp.Prelude.{
  raise_or, ℕ, ◌≡◌, refl, sym, ap, ◌∙◌, subst, ◌↔◌, ◌⊎◌, inl, inr, Bool, true, false, not, ◌&&◌,
  ◌||◌, Option, none, some, String, List, [], ◌∷◌, ◌==◌, arith, eq_iff, eq_refl, leb, ltb, len,
  length, contains, lookup, is_blank, is_empty, codes, format, Violation, reject_if, ◌<|>◌, require,
  if◌then◌else◌, some_inj,
}
use rclp.Core.Value.{Value, null, int, str, dict, list, Items, nil, cons, end, field}
use rclp.Core.Models.{
  AuditCommit, AuditBatchCommit, BaseMessage, batch_message, ed25519_signature_algorithm,
  signature_algorithm_violation, signature_algorithm_violation-none_iff,
}
use rclp.Core.Budget.{budget_exceeded}
use rclp.Core.Runtime.{Runtime}
use rclp.Core.Hash.{stable_json_hash}
use rclp.Core.Signer.{Signed, Reasons, signer_violation, IsSigned, signer_iff}
use rclp.Core.Audit.{last_proof, option_value, text_items, same_option}
use rclp.Core.Audit.Chain.{audit_batch_chain_violation, IsChain, IsChain-iff, same_option_iff}

abbrev pub ids_of : List AuditCommit → List String
ids_of [] = []
ids_of (event ∷ events) = event.audit_id ∷ ids_of events

abbrev pub same_texts : List String → List String → Bool
same_texts [] [] = true
same_texts (a ∷ xs) (b ∷ ys) = (a == b) && same_texts xs ys
same_texts _ _ = false

-- `text.startswith(prefix)`, over code points.
unfoldable pub begins_with : List ℕ → List ℕ → Bool
begins_with [] text = true
begins_with (c ∷ prefix) [] = false
begins_with (c ∷ prefix) (d ∷ text) = leb c d && leb d c && begins_with prefix text

abbrev pub is_sha256 : String → Bool
is_sha256 text = begins_with (codes "sha256:") (codes text)

-- `validate_batch_commit`, after `Field(gt=0)`.
unfoldable pub batch_commit_violation : AuditBatchCommit → Violation
batch_commit_violation batch =
    reject_if (leb batch.event_count 0) "Input should be greater than 0"
    <|> reject_if (is_empty batch.audit_ids) "audit batch must include at least one audit_id"
    <|> reject_if
        (not (
          leb batch.event_count (length batch.audit_ids)
          && leb (length batch.audit_ids) batch.event_count))
        "audit batch event_count must match audit_ids"
    <|> reject_if (not (is_sha256 batch.chain_head))
        "audit batch chain_head must be a sha256 reference"
    <|> reject_if (not (is_sha256 batch.batch_hash)) "audit batch_hash must be a sha256 reference"
    <|> reject_if (is_blank batch.signed_by) "audit batch signed_by is required"

-- What a new batch draws.
pub record BatchDraw : Type 0 where
  pub base : BaseMessage
  pub batch_hex : String

abbrev pub or_signed_by : Option String → String → String
or_signed_by none signed_by = signed_by
or_signed_by (some id) signed_by = if ltb 0 (len id) then id else signed_by

-- The text of a head that is there.
abbrev pub text_or_empty : Option String → String
text_or_empty none = ""
text_or_empty (some text) = text

abbrev pub with_batch_signature : (AuditBatchCommit → String) → AuditBatchCommit → AuditBatchCommit
with_batch_signature signer batch = record batch { signature = some (signer batch) }

-- `",".join(texts)`
abbrev pub joined : List String → String
joined [] = ""
joined (text ∷ []) = text
joined (text ∷ more ∷ texts) = format (text ∷ "," ∷ joined (more ∷ texts) ∷ [])

module _ (rt : Runtime) where
  abbrev pub dumped_events : List AuditCommit → Items
  dumped_events [] = nil
  dumped_events (event ∷ events) = cons (rt.event_dump event) (dumped_events events)

  -- The dictionary of `audit_batch_payload`, for events that are a chain.
  unfoldable pub audit_batch_payload : List AuditCommit → Value
  audit_batch_payload events = dict (
      field "message_type" (str "audit_batch_payload_v0") (
        field "audit_ids" (list (text_items (ids_of events))) (
          field "event_count" (int false (length events)) (
            field "chain_head" (option_value (last_proof none events))
              (field "events" (list (dumped_events events)) end)))))

  -- `audit_batch_hash`; the chain has been checked by its callers.
  unfoldable pub audit_batch_hash : List AuditCommit → String
  audit_batch_hash events = stable_json_hash rt (audit_batch_payload events)

  unfoldable pub unsigned_batch :
      BatchDraw → List AuditCommit → (signed_by : String) → Option String → AuditBatchCommit
  unsigned_batch draw events signed_by authenticated_signed_by = record {
    base = record (draw.base) {
      model_fields_set =
          "audit_ids" ∷ "event_count" ∷ "chain_head" ∷ "batch_hash" ∷ "signed_by"
          ∷ "authenticated_signed_by" ∷ "signature_alg" ∷ "signature" ∷ [];
    };
    batch_id = format ("audit_batch_" ∷ draw.batch_hex ∷ []);
    audit_ids = ids_of events;
    event_count = length events;
    chain_head = text_or_empty (last_proof none events);
    batch_hash = audit_batch_hash events;
    signed_by = signed_by;
    authenticated_signed_by = some (or_signed_by authenticated_signed_by signed_by);
    signature_alg = ed25519_signature_algorithm;
    signature = none;
  }

  unfoldable pub create_signed_audit_batch :
      BatchDraw
      → List AuditCommit
      → (signed_by : String) → (AuditBatchCommit → String)
      → Option String
      → String ⊎ AuditBatchCommit
  create_signed_audit_batch draw events signed_by signer authenticated_signed_by =
      let batch = unsigned_batch draw events signed_by authenticated_signed_by in
      raise_or (audit_batch_chain_violation rt events <|> batch_commit_violation batch)
        (with_batch_signature signer batch)

  unfoldable pub audit_batch_event_violation : AuditBatchCommit → List AuditCommit → Violation
  audit_batch_event_violation batch events =
      audit_batch_chain_violation rt events
      <|> reject_if (not (same_texts batch.audit_ids (ids_of events)))
          "AUDIT_BATCH_EVENT_IDS_MISMATCH"
      <|> reject_if
          (not (leb batch.event_count (length events) && leb (length events) batch.event_count))
          "AUDIT_BATCH_EVENT_COUNT_MISMATCH"
      <|> reject_if (not (same_option (some batch.chain_head) (last_proof none events)))
          "AUDIT_BATCH_CHAIN_HEAD_MISMATCH"
      <|> reject_if (not (batch.batch_hash == audit_batch_hash events)) "AUDIT_BATCH_HASH_MISMATCH"

  unfoldable pub batch_texts : AuditBatchCommit → List (Option String)
  batch_texts batch =
      some batch.protocol_version
      ∷ some batch.message_id
      ∷ some batch.correlation_id
      ∷ some (rt.isoformat batch.created_at)
      ∷ some "audit_batch_commit"
      ∷ some batch.batch_id
      ∷ some (joined batch.audit_ids)
      ∷ some (rt.str_int batch.event_count)
      ∷ some batch.chain_head
      ∷ some batch.batch_hash
      ∷ some batch.signed_by
      ∷ batch.authenticated_signed_by
      ∷ some batch.signature_alg
      ∷ batch.signature
      ∷ []

  -- `_audit_batch_signed_material_too_large`
  unfoldable pub audit_batch_signed_material_too_large : AuditBatchCommit → Bool
  audit_batch_signed_material_too_large batch = budget_exceeded 0 (batch_texts batch)

  abbrev pub signed_batch : AuditBatchCommit → Signed
  signed_batch batch = record {
    message = batch_message batch;
    claimed = batch.signed_by;
    authenticated = batch.authenticated_signed_by;
    signature = batch.signature;
    too_large = audit_batch_signed_material_too_large batch;
  }

  abbrev pub batch_reasons : Reasons
  batch_reasons = record {
    no_signer = "AUDIT_BATCH_AUTHENTICATED_SIGNER_MISSING";
    other_signer = "AUDIT_BATCH_AUTHENTICATED_SIGNER_MISMATCH";
    no_signature = "AUDIT_BATCH_SIGNATURE_MISSING";
    no_key = "AUDIT_BATCH_SIGNER_KEY_NOT_TRUSTED";
    too_large = "AUDIT_BATCH_SIGNED_MATERIAL_TOO_LARGE";
    bad_signature = "AUDIT_BATCH_SIGNATURE_INVALID";
  }

  unfoldable pub audit_batch_auth_violation : AuditBatchCommit → List (String × String) → Violation
  audit_batch_auth_violation batch public_keys_by_signer_id =
      signature_algorithm_violation batch.base batch.signature_alg
        "AUDIT_BATCH_SIGNATURE_ALGORITHM_MISSING" "AUDIT_BATCH_SIGNATURE_ALGORITHM_UNSUPPORTED"
      <|> reject_if (is_blank batch.signed_by) "AUDIT_BATCH_SIGNER_MISSING"
      <|> signer_violation rt public_keys_by_signer_id batch_reasons (signed_batch batch)
