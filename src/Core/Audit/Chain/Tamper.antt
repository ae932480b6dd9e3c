-- ===== src/Core/Audit/Chain/Tamper.antt =====
-- What the head of a chain says of the events before it.
use rclp.Prelude.{
  ◌≡◌, ◌≢◌, refl, sym, subst, ap, ◌∙◌, ◌⊎◌, inl, inr, Option, none, String, List, [], ◌∷◌, some_inj,
}
use rclp.Core.Value.{dict, get_field}
use rclp.Core.Models.{AuditCommit, event_text}
use rclp.Core.Runtime.{Runtime}
use rclp.Core.Audit.{proof_material, integrity_proof_of, payload_hash_of, last_proof}
use rclp.Core.Audit.Chain.{IsSealed, IsChain}
use rclp.Core.Audit.Chain.Entries.{
  Value_discrete, codes_discrete, entry, text_of, flag_of, option_of, texts_of,
}

abbrev pub newest_onto : List AuditCommit → List AuditCommit → List AuditCommit
newest_onto newer [] = newer
newest_onto newer (e ∷ es) = newest_onto (e ∷ newer) es

abbrev head_proof : List AuditCommit → Option String
head_proof [] = none
head_proof (e ∷ es) = e.integrity_proof

-- An event stands in a list.
abbrev pub IsIn : AuditCommit → List AuditCommit → Type 0
IsIn event [] = ⊥
IsIn event (e ∷ es) = (event ≡ e) ⊎ IsIn event es

IsIn-newest :
    (event : AuditCommit) (newer events : List AuditCommit)
    → IsIn event (newest_onto newer events)
    → IsIn event newer ⊎ IsIn event events
IsIn-newest event newer [] i = inl i
IsIn-newest event newer (e ∷ es) i = elim (IsIn-newest event (e ∷ newer) es i) [
  | inl (inl same) ↦ inr (inl same)
  | inl (inr before) ↦ inl before
  | inr after ↦ inr (inr after)
]

IsIn-newest_first :
    (event : AuditCommit) (events : List AuditCommit)
    → IsIn event (newest_onto [] events)
    → IsIn event events
IsIn-newest_first event events i = elim (IsIn-newest event [] events i) [
  | inl nothing ↦ elim nothing [ ]
  | inr found ↦ found
]

module _ (rt : Runtime) where
  -- The same event, but for the set of the fields that were given; its time as its text, and its payload as
  -- its canonical text, which does not depend on the order of the fields.
  pub record IsSame (a b : AuditCommit) : Type 0 where
    pub audit_id : a.audit_id ≡ b.audit_id
    pub message_id : a.message_id ≡ b.message_id
    pub protocol_version : a.protocol_version ≡ b.protocol_version
    pub correlation_id : a.correlation_id ≡ b.correlation_id
    pub created_at : rt.str_datetime a.created_at ≡ rt.str_datetime b.created_at
    pub event_type : event_text a.event_type ≡ event_text b.event_type
    pub actor_id : a.actor_id ≡ b.actor_id
    pub robot_id : a.robot_id ≡ b.robot_id
    pub mission_id : a.mission_id ≡ b.mission_id
    pub summary : a.summary ≡ b.summary
    pub payload : rt.json_dumps (dict a.payload) ≡ rt.json_dumps (dict b.payload)
    pub payload_hash : a.payload_hash ≡ b.payload_hash
    pub authority_relevant : a.authority_relevant ≡ b.authority_relevant
    pub integrity_profile : a.integrity_profile ≡ b.integrity_profile
    pub integrity_proof : a.integrity_proof ≡ b.integrity_proof
    pub previous_audit_hash : a.previous_audit_hash ≡ b.previous_audit_hash
    pub policy_id : a.policy_id ≡ b.policy_id
    pub policy_digest : a.policy_digest ≡ b.policy_digest
    pub state_refs : a.state_refs ≡ b.state_refs
    pub related_message_ids : a.related_message_ids ≡ b.related_message_ids

  -- One proof for different materials, which have their fields in one order.
  pub record ProofClash (a b : AuditCommit) : Type 0 where
    pub differ :
        proof_material rt a a.previous_audit_hash ≢ proof_material rt b b.previous_audit_hash
    pub one_proof :
        integrity_proof_of rt a a.previous_audit_hash
        ≡ integrity_proof_of rt b b.previous_audit_hash

  -- One hash for payloads of different canonical texts.
  pub record PayloadClash (a b : AuditCommit) : Type 0 where
    pub differ : rt.json_dumps (dict a.payload) ≢ rt.json_dumps (dict b.payload)
    pub one_hash : payload_hash_of rt a.payload ≡ payload_hash_of rt b.payload

  -- An event of one list and an event of the other that differ under one hash.
  pub record Forged (xs ys : List AuditCommit) : Type 0 where
    pub original : AuditCommit
    pub forgery : AuditCommit
    pub from_left : IsIn original xs
    pub from_right : IsIn forgery ys
    pub clash : ProofClash original forgery ⊎ PayloadClash original forgery

  abbrev pub AllSame : List AuditCommit → List AuditCommit → Type 0
  AllSame [] [] = Unit
  AllSame (a ∷ xs) (b ∷ ys) = IsSame a b × AllSame xs ys
  AllSame _ _ = ⊥

  abbrev IsBack : List AuditCommit → Type 0
  IsBack [] = Unit
  IsBack (e ∷ es) = IsSealed rt (head_proof es) e × IsBack es

  IsBack-newest :
      (ids : List String) (previous : Option String) (newer events : List AuditCommit)
      → IsBack newer
      → previous ≡ head_proof newer
      → IsChain rt ids previous events
      → IsBack (newest_onto newer events)
        × (last_proof previous events ≡ head_proof (newest_onto newer events))
  unfolding last_proof
  IsBack-newest ids previous newer [] back e c = (back, e)
  IsBack-newest ids previous newer (event ∷ events) back e c =
      IsBack-newest (event.audit_id ∷ ids) event.integrity_proof (event ∷ newer) events
        (subst (λ p. IsSealed rt p event) e c.1, back) refl c.2

  -- The material of a proof determines the hash of the payload and the proof before.
  links-of :
      (a b : AuditCommit) (p q : Option String)
      → proof_material rt a p ≡ proof_material rt b q
      → (a.payload_hash ≡ b.payload_hash) × (p ≡ q)
  unfolding proof_material get_field
  links-of a b p q m =
      (option_of (ap (entry "payload_hash") m), option_of (ap (entry "previous_audit_hash") m))

  IsSame-of :
      (a b : AuditCommit)
      → proof_material rt a a.previous_audit_hash ≡ proof_material rt b b.previous_audit_hash
      → a.integrity_proof ≡ b.integrity_proof
      → rt.json_dumps (dict a.payload) ≡ rt.json_dumps (dict b.payload)
      → IsSame a b
  unfolding proof_material get_field
  IsSame-of a b m proof text = record {
    audit_id = text_of (ap (entry "audit_id") m);
    message_id = text_of (ap (entry "message_id") m);
    protocol_version = text_of (ap (entry "protocol_version") m);
    correlation_id = text_of (ap (entry "correlation_id") m);
    created_at = text_of (ap (entry "created_at") m);
    event_type = text_of (ap (entry "event_type") m);
    actor_id = text_of (ap (entry "actor_id") m);
    robot_id = option_of (ap (entry "robot_id") m);
    mission_id = option_of (ap (entry "mission_id") m);
    summary = text_of (ap (entry "summary") m);
    payload = text;
    payload_hash = option_of (ap (entry "payload_hash") m);
    authority_relevant = flag_of (ap (entry "authority_relevant") m);
    integrity_profile = text_of (ap (entry "integrity_profile") m);
    integrity_proof = proof;
    previous_audit_hash = option_of (ap (entry "previous_audit_hash") m);
    policy_id = option_of (ap (entry "policy_id") m);
    policy_digest = option_of (ap (entry "policy_digest") m);
    state_refs = texts_of (ap (entry "state_refs") m);
    related_message_ids = texts_of (ap (entry "related_message_ids") m);
  }

  -- Two sealed events with one proof are the same, or a pair of things that differ under one hash.
  one_event :
      (a b : AuditCommit) (p q : Option String)
      → IsSealed rt p a
      → IsSealed rt q b
      → a.integrity_proof ≡ b.integrity_proof
      → IsSame a b ⊎ (ProofClash a b ⊎ PayloadClash a b)
  one_event a b p q s t e =
      let one_proof : integrity_proof_of rt a a.previous_audit_hash
          ≡ integrity_proof_of rt b b.previous_audit_hash =
        ap (integrity_proof_of rt a) s.link
        ∙ some_inj (sym s.proof ∙ e ∙ t.proof)
        ∙ sym (ap (integrity_proof_of rt b) t.link) in
      elim (Value_discrete (proof_material rt a a.previous_audit_hash)
        (proof_material rt b b.previous_audit_hash)) [
          | no differ ↦ inr (inl (record { differ = differ; one_proof = one_proof }))
          | yes m ↦
              elim (codes_discrete (rt.json_dumps (dict a.payload))
                (rt.json_dumps (dict b.payload))) [
                  | yes text ↦ inl (IsSame-of a b m e text)
                  | no differ ↦ inr (
                      inr (record {
                        differ = differ;
                        one_hash = some_inj (sym s.payload ∙ (links-of a b _ _ m).0 ∙ t.payload);
                      }))
                ]
        ]

  Forged-older :
      (a b : AuditCommit) (xs ys : List AuditCommit) → Forged xs ys → Forged (a ∷ xs) (b ∷ ys)
  Forged-older a b xs ys f = record {
    original = f.original;
    forgery = f.forgery;
    from_left = inr f.from_left;
    from_right = inr f.from_right;
    clash = f.clash;
  }

  back_same :
      (xs ys : List AuditCommit)
      → IsBack xs
      → IsBack ys
      → head_proof xs ≡ head_proof ys
      → AllSame xs ys ⊎ Forged xs ys
  back_same [] [] s t e = inl tt
  back_same [] (b ∷ ys) s t e = cc (e, t.0.proof)
  back_same (a ∷ xs) [] s t e = cc (e, s.0.proof)
  back_same (a ∷ xs) (b ∷ ys) s t e =
      elim (one_event a b (head_proof xs) (head_proof ys) s.0 t.0 e) [
        | inr clash ↦ inr (record {
          original = a;
          forgery = b;
          from_left = inl refl;
          from_right = inl refl;
          clash = clash;
        })
        | inl same ↦
            let before = sym s.0.link ∙ same.previous_audit_hash ∙ t.0.link in
            elim (back_same xs ys s.1 t.1 before) [
              | inr found ↦ inr (Forged-older a b xs ys found)
              | inl rest ↦ inl (same, rest)
            ]
      ]

  -- If two chains have one head, then they have the same events, newest first, one by one and so as many; or
  -- an event of one and an event of the other have different materials of a proof under one hash, or payloads
  -- of different canonical texts under one hash.
  pub heads_same :
      (xs ys : List AuditCommit)
      → IsChain rt [] none xs
      → IsChain rt [] none ys
      → last_proof none xs ≡ last_proof none ys
      → AllSame (newest_onto [] xs) (newest_onto [] ys) ⊎ Forged xs ys
  heads_same xs ys c d e =
      let (s, p) = IsBack-newest [] none [] xs tt refl c in
      let (t, q) = IsBack-newest [] none [] ys tt refl d in
      elim (back_same (newest_onto [] xs) (newest_onto [] ys) s t (sym p ∙ e ∙ q)) [
        | inl same ↦ inl same
        | inr f ↦ inr (record {
          original = f.original;
          forgery = f.forgery;
          from_left = IsIn-newest_first f.original xs f.from_left;
          from_right = IsIn-newest_first f.forgery ys f.from_right;
          clash = f.clash;
        })
      ]
