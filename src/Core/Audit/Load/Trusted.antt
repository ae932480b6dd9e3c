-- ===== src/Core/Audit/Load/Trusted.antt =====
-- What comes out of an import.
use rclp.Prelude.{
  ◌≡◌, refl, sym, ap, ◌∙◌, subst, ◌⊎◌, inl, inr, Bool-cases, false, ◌||◌, Option, none, some,
  String, List, [], ◌∷◌, ◌++◌, arith, contains, is_blank, is_empty, Violation,
}
use rclp.Core.Models.{AuditCommit}
use rclp.Core.Runtime.{Runtime}
use rclp.Core.Audit.{AuditLog, is_authority_event, payload_hash_violation, last_proof, chain_head}
use rclp.Core.Audit.Chain.{
  context_iff, IsSealed, same_option_iff, IsChain, ids_after, IsChain-append,
}
use rclp.Core.Audit.Log.{IsLog, ids_after-append}
use rclp.Core.Audit.Chain.Tamper.{AllSame, newest_onto, Forged, heads_same}
use rclp.Core.Audit.Load.{
  AuditImportProfile, authority_chain, diagnostic_only, Reader, raw_event_violation, Loading,
  not_started, bind_result, unless_raised, loaded_event_violation, with_event, load_event, load_raw,
  load_line, load_lines, import_violation, import_profile_violation, load_jsonl,
}

-- No event is about authority.
abbrev pub AllDiagnostic : List AuditCommit → Type 0
AllDiagnostic [] = Unit
AllDiagnostic (e ∷ es) =
    ((e.authority_relevant || is_authority_event e.event_type) ≡ false) × AllDiagnostic es

-- The state of the loop over a chain.
pub record IsLoading (rt : Runtime) (loading : Loading) : Type 0 where
  pub chain : IsChain rt [] none loading.events
  pub ids : loading.audit_ids ≡ ids_after [] loading.events
  pub head : loading.previous_hash ≡ last_proof none loading.events
  pub quiet : loading.authority_events ≡ false → AllDiagnostic loading.events

unless_raised-inr :
    {A : Type 0} (v : Violation) (rest : String ⊎ A) (a : A)
    → unless_raised v rest ≡ inr a
    → (v ≡ none) × (rest ≡ inr a)
unless_raised-inr none rest a h = (refl, h)
unless_raised-inr (some message) rest a h = cc h

bind_result-inr :
    {A B : Type 0} (r : String ⊎ A) (rest : A → String ⊎ B) (b : B)
    → bind_result r rest ≡ inr b
    → (a : A) × (r ≡ inr a) × (rest a ≡ inr b)
bind_result-inr (inl message) rest b h = cc h
bind_result-inr (inr a) rest b h = (a, refl, h)

last_proof-append :
    (previous : Option String) (events : List AuditCommit) (event : AuditCommit)
    → last_proof previous (events ++ (event ∷ [])) ≡ event.integrity_proof
unfolding last_proof
last_proof-append previous [] event = refl
last_proof-append previous (e ∷ es) event = last_proof-append e.integrity_proof es event

AllDiagnostic-append :
    (events : List AuditCommit) (event : AuditCommit)
    → AllDiagnostic events
    → (event.authority_relevant || is_authority_event event.event_type) ≡ false
    → AllDiagnostic (events ++ (event ∷ []))
AllDiagnostic-append [] event q h = (h, tt)
AllDiagnostic-append (e ∷ es) event q h = (q.0, AllDiagnostic-append es event q.1 h)

module _ (rt : Runtime) where
  IsSealed-of :
      (loading : Loading) (event : AuditCommit)
      → loaded_event_violation rt loading event ≡ none
      → (contains event.audit_id loading.audit_ids ≡ false)
        × IsSealed rt loading.previous_hash event
  unfolding loaded_event_violation payload_hash_violation
  IsSealed-of loading event h = (
    ground arith,
    record {
      attributed = (context_iff event).0 (ground arith);
      payload = (same_option_iff _ _).0 (ground arith);
      link = (same_option_iff _ _).0 (ground arith);
      proof = (same_option_iff _ _).0 (ground arith);
    },
  )

  load_event-IsLoading :
      (loading next : Loading) (event : AuditCommit)
      → IsLoading rt loading
      → load_event rt loading event ≡ inr next
      → IsLoading rt next
  unfolding load_event
  load_event-IsLoading loading next event ok h =
      let (fine, made) = unless_raised-inr (loaded_event_violation rt loading event) _ next h in
      let (new, s) = IsSealed-of loading event fine in
      let own : with_event loading event ≡ next = cc made in
      subst (IsLoading rt) own (record {
        chain =
            IsChain-append rt [] none loading.events event ok.chain
              (subst (λ ids. contains event.audit_id ids ≡ false) ok.ids new)
              (subst (λ p. IsSealed rt p event) ok.head s);
        ids =
            ap (λ ids. event.audit_id ∷ ids) ok.ids
            ∙ sym (ids_after-append [] loading.events event);
        head = sym (last_proof-append none loading.events event);
        quiet =
            λ q. AllDiagnostic-append loading.events event (ok.quiet (ground arith)) (ground arith);
      })

  load_line-IsLoading :
      (reader : Reader) (loading next : Loading) (line : String)
      → IsLoading rt loading
      → load_line rt reader loading line ≡ inr next
      → IsLoading rt next
  unfolding load_line load_raw
  load_line-IsLoading reader loading next line ok h = elim (Bool-cases (is_blank line)) [
    | inl blank ↦ subst (IsLoading rt) (cc (blank, h)) ok
    | inr filled ↦
        let (raw, _, a) =
          bind_result-inr (reader.loads line) (load_raw rt reader loading) next (cc (filled, h)) in
        let (_, b) = unless_raised-inr (raw_event_violation raw) _ next a in
        let (event, _, c) = bind_result-inr (reader.model_validate raw) _ next b in
        load_event-IsLoading loading next event ok c
  ]

  load_lines-IsLoading :
      (reader : Reader) (lines : List String) (loading final : Loading)
      → IsLoading rt loading
      → load_lines rt reader loading lines ≡ inr final
      → IsLoading rt final
  unfolding load_lines
  load_lines-IsLoading reader [] loading final ok h = subst (IsLoading rt) (cc h) ok
  load_lines-IsLoading reader (line ∷ lines) loading final ok h =
      let (next, a, b) = bind_result-inr (load_line rt reader loading line) _ final h in
      load_lines-IsLoading reader lines next final
        (load_line-IsLoading reader loading next line ok a) b

  not_started-IsLoading : IsLoading rt not_started
  unfolding last_proof
  not_started-IsLoading = record { chain = tt; ids = refl; head = refl; quiet = λ q. tt }

  loaded :
      (reader : Reader) (lines : List String) (trusted : Option String)
      (profile : AuditImportProfile) (events : List AuditCommit)
      → load_jsonl rt reader lines trusted profile ≡ inr events
      → (final : Loading) × IsLoading rt final
        × (import_violation profile trusted final ≡ none)
        × (final.events ≡ events)
  unfolding load_jsonl
  loaded reader lines trusted profile events h =
      let (_, a) = unless_raised-inr (import_profile_violation profile) _ events h in
      let (final, b, c) = bind_result-inr (load_lines rt reader not_started lines) _ events a in
      let (fine, d) = unless_raised-inr (import_violation profile trusted final) _ events c in
      (
        final,
        load_lines-IsLoading reader lines not_started final not_started-IsLoading b,
        fine,
        cc d,
      )

  -- Whatever the lines are and however they are parsed, the events that an authority import returns are a
  -- chain, and if there are any its head is the trusted one.
  pub authority_import :
      (reader : Reader) (lines : List String) (trusted : Option String) (events : List AuditCommit)
      → load_jsonl rt reader lines trusted authority_chain ≡ inr events
      → IsChain rt [] none events × (is_empty events ≡ false → (trusted ≡ last_proof none events))
  unfolding import_violation
  authority_import reader lines trusted events h =
      let (final, ok, fine, own) = loaded reader lines trusted authority_chain events h in
      subst (λ es. IsChain rt [] none es × (is_empty es ≡ false → (trusted ≡ last_proof none es)))
        own (ok.chain, λ given. (same_option_iff _ _).0 (ground (arith, fine, given)) ∙ ok.head)

  -- An authority import under the head of a log that is a chain, if it returns any events, returns those of the
  -- log, compared newest first; or an event that it returns and an event of the log have different materials
  -- of a proof under one hash, or payloads of different canonical texts under one hash.
  pub import_of_log :
      (reader : Reader) (lines : List String) (log : AuditLog) (events : List AuditCommit)
      → IsLog rt log
      → load_jsonl rt reader lines (chain_head log) authority_chain ≡ inr events
      → is_empty events ≡ false
      → AllSame rt (newest_onto [] events) (newest_onto [] log.events) ⊎ Forged rt events log.events
  unfolding chain_head
  import_of_log reader lines log events ok h given =
      let (chain, head) = authority_import reader lines (chain_head log) events h in
      heads_same rt events log.events chain ok.chain (sym (head given))

  -- A diagnostic import returns a chain without any event about authority.
  pub diagnostic_import :
      (reader : Reader) (lines : List String) (trusted : Option String) (events : List AuditCommit)
      → load_jsonl rt reader lines trusted diagnostic_only ≡ inr events
      → IsChain rt [] none events × AllDiagnostic events
  unfolding import_violation
  diagnostic_import reader lines trusted events h =
      let (final, ok, fine, own) = loaded reader lines trusted diagnostic_only events h in
      subst (λ es. IsChain rt [] none es × AllDiagnostic es) own
        (ok.chain, ok.quiet (ground (arith, fine)))
