-- ===== src/Core/Audit/Batch/Accepted.antt =====
-- What an accepted batch is, and that a batch which is created is accepted.
use rclp.Prelude.{
  ◌≡◌, refl, sym, ◌∙◌, subst, ◌↔◌, ◌⊎◌, inr, true, false, Option, none, some, String, List, [], ◌∷◌,
  arith, eq_iff, length, contains, lookup, is_blank, is_empty, ◌<|>◌, raise_or-inr, <|>-none_iff,
}
use rclp.Core.Models.{
  AuditCommit, AuditBatchCommit, batch_message, ed25519_signature_algorithm,
  signature_algorithm_violation-none_iff, unsigned,
}
use rclp.Core.Runtime.{Runtime}
use rclp.Core.Signer.{IsSigned, signer_iff}
use rclp.Core.Keys.{DemoKeyPair, sign, public_key_b64, IsEd25519, verify-sign}
use rclp.Core.Audit.{last_proof}
use rclp.Core.Audit.Chain.{audit_batch_chain_violation, IsChain, IsChain-iff, same_option_iff}
use rclp.Core.Audit.Chain.Tamper.{AllSame, newest_onto, Forged, heads_same}
use rclp.Core.Audit.Batch.{
  ids_of, same_texts, batch_commit_violation, BatchDraw, text_or_empty, audit_batch_hash,
  unsigned_batch, with_batch_signature, create_signed_audit_batch, audit_batch_event_violation,
  audit_batch_signed_material_too_large, signed_batch, batch_reasons, audit_batch_auth_violation,
}

same_texts_iff : (xs ys : List String) → (same_texts xs ys ≡ true) ↔ (xs ≡ ys)
same_texts_iff [] [] = (λ h. refl, λ e. refl)
same_texts_iff [] (y ∷ ys) = (λ h. cc, λ e. cc e)
same_texts_iff (x ∷ xs) [] = (λ h. cc, λ e. cc e)
same_texts_iff (x ∷ xs) (y ∷ ys) =
    let rest = same_texts_iff xs ys in
    (
      λ h.
          let here : x ≡ y = ground (arith, eq_iff x y) in
          let there : xs ≡ ys = rest.0 (ground arith) in cc (here, there),
      λ e.
          let here : x ≡ y = cc e in
          let there : xs ≡ ys = cc e in ground (arith, (eq_iff x y).1 here, rest.1 there),
    )

-- The batch is about these events: they are a chain, and it has their identifiers, their number, their head
-- and their hash.
pub record IsBatchOf (rt : Runtime) (events : List AuditCommit) (batch : AuditBatchCommit)
    : Type 0 where
  pub some_left : is_empty events ≡ false
  pub chain : IsChain rt [] none events
  pub ids : batch.audit_ids ≡ ids_of events
  pub count : batch.event_count ≡ length events
  pub head : some batch.chain_head ≡ last_proof none events
  pub hash : batch.batch_hash ≡ audit_batch_hash rt events

last_proof-given :
    (rt : Runtime) (ids : List String) (previous : Option String) (events : List AuditCommit)
    → is_empty events ≡ false
    → IsChain rt ids previous events
    → some (text_or_empty (last_proof previous events)) ≡ last_proof previous events
unfolding last_proof
last_proof-given rt ids previous [] h c = cc h
last_proof-given rt ids previous (e ∷ []) h c = rw (c.1.proof) refl
last_proof-given rt ids previous (e ∷ f ∷ events) h c =
    last_proof-given rt (e.audit_id ∷ ids) e.integrity_proof (f ∷ events) refl c.2

module _ (rt : Runtime) where
  -- The events pass for a batch exactly when the batch is about them.
  pub batch_events_iff :
      (batch : AuditBatchCommit) (events : List AuditCommit)
      → (audit_batch_event_violation rt batch events ≡ none) ↔ IsBatchOf rt events batch
  unfolding audit_batch_event_violation
  batch_events_iff batch events =
      let chain = IsChain-iff rt events in
      let ids = same_texts_iff batch.audit_ids (ids_of events) in
      let head = same_option_iff (some batch.chain_head) (last_proof none events) in
      let hash = eq_iff batch.batch_hash (audit_batch_hash rt events) in
      (
        λ h.
            let c = chain.0 (ground arith) in
            record {
              some_left = c.0;
              chain = c.1;
              ids = ids.0 (ground arith);
              count = ground arith;
              head = head.0 (ground arith);
              hash = hash.0 (ground arith);
            },
        λ f. ground (
          arith,
          chain.1 (f.some_left, f.chain),
          ids.1 f.ids,
          f.count,
          head.1 f.head,
          hash.1 f.hash,
        ),
      )

  batch_auth_iff :
      (batch : AuditBatchCommit) (keys : List (String × String))
      → (audit_batch_auth_violation rt batch keys ≡ none) ↔ (
          (contains "signature_alg" batch.model_fields_set ≡ true)
          × (batch.signature_alg ≡ ed25519_signature_algorithm)
          × (is_blank batch.signed_by ≡ false)
          × IsSigned rt keys (signed_batch rt batch))
  unfolding audit_batch_auth_violation
  batch_auth_iff batch keys =
      let alg =
        signature_algorithm_violation-none_iff batch.base batch.signature_alg
          "AUDIT_BATCH_SIGNATURE_ALGORITHM_MISSING" "AUDIT_BATCH_SIGNATURE_ALGORITHM_UNSUPPORTED" in
      let signer = signer_iff rt keys (batch_reasons rt) (signed_batch rt batch) in
      (
        λ h. let a = alg.0 (ground arith) in (a.0, a.1, ground arith, signer.0 (ground arith)),
        λ f. ground (arith, alg.1 (f.0, f.1), f.2, signer.1 f.3),
      )

  -- Two lists of events that pass for one batch are the same events, newest first, or have events that differ
  -- under one hash.
  pub batch_binds :
      (batch : AuditBatchCommit) (xs ys : List AuditCommit)
      → audit_batch_event_violation rt batch xs ≡ none
      → audit_batch_event_violation rt batch ys ≡ none
      → AllSame rt (newest_onto [] xs) (newest_onto [] ys) ⊎ Forged rt xs ys
  batch_binds batch xs ys h k =
      let a = (batch_events_iff batch xs).0 h in
      let b = (batch_events_iff batch ys).0 k in
      heads_same rt xs ys a.chain b.chain (sym a.head ∙ b.head)

  module _ (draw : BatchDraw) (events : List AuditCommit) (signed_by : String)
      (pair : DemoKeyPair) where
    abbrev signer : AuditBatchCommit → String
    signer batch = sign rt pair (batch_message batch)

    abbrev made : AuditBatchCommit
    made = with_batch_signature signer (unsigned_batch rt draw events signed_by none)

    made-IsBatchOf : audit_batch_chain_violation rt events ≡ none → IsBatchOf rt events made
    unfolding unsigned_batch
    made-IsBatchOf h =
        let c = (IsChain-iff rt events).0 h in
        record {
          some_left = c.0;
          chain = c.1;
          ids = refl;
          count = refl;
          head = last_proof-given rt [] none events c.0 c.1;
          hash = refl;
        }

    made-IsSigned :
        (keys : List (String × String))
        → IsEd25519 rt pair
        → lookup signed_by keys ≡ some (public_key_b64 pair)
        → audit_batch_signed_material_too_large rt made ≡ false
        → IsSigned rt keys (signed_batch rt made)
    unfolding unsigned_batch unsigned
    made-IsSigned keys ok known small = record {
      signature = signer (unsigned_batch rt draw events signed_by none);
      public_key = public_key_b64 pair;
      signer = refl;
      signed = refl;
      trusted = known;
      small = small;
      verified =
          verify-sign rt pair (batch_message (unsigned_batch rt draw events signed_by none))
            (batch_message made) ok refl;
    }

    -- Where Ed25519 accepts the signatures of the key pair, the public key of the pair is configured for the
    -- signer, and the texts of the batch are within the budget, a batch that is created over events and signed
    -- with the pair in the signer's own name passes for those events, and its signature passes.
    pub created_batch_accepted :
        (batch : AuditBatchCommit) (keys : List (String × String))
        → create_signed_audit_batch rt draw events signed_by signer none ≡ inr batch
        → IsEd25519 rt pair
        → lookup signed_by keys ≡ some (public_key_b64 pair)
        → audit_batch_signed_material_too_large rt batch ≡ false
        → (audit_batch_event_violation rt batch events ≡ none)
          × (audit_batch_auth_violation rt batch keys ≡ none)
    unfolding create_signed_audit_batch unsigned_batch contains batch_commit_violation
    created_batch_accepted batch keys h ok known small =
        let bare = unsigned_batch rt draw events signed_by none in
        let raised =
          raise_or-inr (audit_batch_chain_violation rt events <|> batch_commit_violation bare) made
            batch h in
        let own : made ≡ batch = raised.1 in
        let checks =
          (<|>-none_iff (audit_batch_chain_violation rt events) (batch_commit_violation bare)).0
            raised.0 in
        let chained : audit_batch_chain_violation rt events ≡ none = checks.0 in
        let checked : batch_commit_violation bare ≡ none = checks.1 in
        let named : is_blank signed_by ≡ false = ground arith in
        let within =
          subst (λ b. audit_batch_signed_material_too_large rt b ≡ false) (sym own) small in
        subst
          (λ b.
            (audit_batch_event_violation rt b events ≡ none)
            × (audit_batch_auth_violation rt b keys ≡ none))
          own
          (
            (batch_events_iff made events).1 (made-IsBatchOf chained),
            (batch_auth_iff made keys).1 (refl, refl, named, made-IsSigned keys ok known within),
          )
