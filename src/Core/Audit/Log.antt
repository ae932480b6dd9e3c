-- ===== src/Core/Audit/Log.antt =====
-- What appending does to a log: however it is called, the events stay a chain.
use rclp.Prelude.{
  ◌≡◌, refl, sym, ap, ◌∙◌, subst, ◌↔◌, ◌⊎◌, inl, inr, false, Option, none, some, String, List, [],
  ◌∷◌, ◌++◌, arith, eq_refl, contains, is_empty, Violation,
}
use rclp.Core.Models.{AuditCommit}
use rclp.Core.Runtime.{Runtime}
use rclp.Core.Audit.{
  AuditLog, empty_log, context_violation, chain_head, proof_material, integrity_proof_of,
  payload_hash_of, payload_hash_violation, given_and_other, append_violation, or_previous,
  committed, push, raise_or_push, append, EventDraw, RecordArguments, new_event, record_event,
}
use rclp.Core.Audit.Chain.{
  audit_batch_chain_violation, IsAttributed, context_iff, IsSealed, same_option_iff, IsChain,
  IsChain-iff, ids_after, IsChain-append,
}

-- The events are a chain, and the identifiers are theirs.
pub record IsLog (rt : Runtime) (log : AuditLog) : Type 0 where
  pub chain : IsChain rt [] none log.events
  pub ids : log.audit_ids ≡ ids_after [] log.events

pub ids_after-append :
    (ids : List String) (events : List AuditCommit) (event : AuditCommit)
    → ids_after ids (events ++ (event ∷ [])) ≡ event.audit_id ∷ ids_after ids events
ids_after-append ids [] event = refl
ids_after-append ids (e ∷ es) event = ids_after-append (e.audit_id ∷ ids) es event

module _ (rt : Runtime) where
  or_previous-eq :
      (given expected : Option String)
      → given_and_other given expected ≡ false
      → or_previous given expected ≡ expected
  or_previous-eq none expected h = refl
  or_previous-eq (some g) expected h =
      let same = (same_option_iff (some g) expected).0 (ground arith) in ground (arith, same)

  committed-IsSealed :
      (log : AuditLog) (event : AuditCommit)
      → append_violation rt log event ≡ none
      → (contains event.audit_id log.audit_ids ≡ false)
        × IsSealed rt (chain_head log) (committed rt log event)
  unfolding append_violation payload_hash_violation committed integrity_proof_of proof_material
      context_violation
  committed-IsSealed log event h =
      let a = (context_iff event).0 (ground arith) in
      (
        ground arith,
        record {
          attributed = record { relevant = a.relevant; robot = a.robot; mission = a.mission };
          payload = (same_option_iff _ _).0 (ground arith);
          link = or_previous-eq event.previous_audit_hash (chain_head log) (ground arith);
          proof = refl;
        },
      )

  raise_or_push-inr :
      (v : Violation) (log : AuditLog) (event : AuditCommit) (after : AuditLog × AuditCommit)
      → raise_or_push v log event ≡ inr after
      → (v ≡ none) × ((push log event, event) ≡ after)
  raise_or_push-inr none log event after h = (refl, cc h)
  raise_or_push-inr (some m) log event after h = cc h

  push-IsLog :
      (log : AuditLog) (event : AuditCommit)
      → IsLog rt log
      → append_violation rt log event ≡ none
      → IsLog rt (push log (committed rt log event))
  unfolding chain_head committed
  push-IsLog log event ok h =
      let s = committed-IsSealed log event h in
      record {
        chain =
            IsChain-append rt [] none log.events (committed rt log event) ok.chain
              (subst (λ ids. contains event.audit_id ids ≡ false) ok.ids s.0) s.1;
        ids =
            ap (λ ids. event.audit_id ∷ ids) ok.ids
            ∙ sym (ids_after-append [] log.events (committed rt log event));
      }

  -- Appending to a chain, if it does not raise, adds one event at the end, leaves those before it, and gives a
  -- chain.
  pub append-IsLog :
      (log next : AuditLog) (event done : AuditCommit)
      → IsLog rt log
      → append rt log event ≡ inr (next, done)
      → IsLog rt next × (next.events ≡ log.events ++ (done ∷ []))
  unfolding append
  append-IsLog log next event done ok h =
      let (fine, made) = raise_or_push-inr _ _ _ (next, done) h in
      (
        subst (IsLog rt) (ap (λ p. p.0) made) (push-IsLog log event ok fine),
        sym (ap (λ p. p.0.events) made) ∙ ap (λ p. log.events ++ (p.1 ∷ [])) made,
      )

  -- The log after each of the events was offered to `append`; an exception leaves the log as it is.
  abbrev pub kept : AuditLog → String ⊎ (AuditLog × AuditCommit) → AuditLog
  kept log (inl message) = log
  kept log (inr (next, event)) = next

  abbrev pub after_appends : AuditLog → List AuditCommit → AuditLog
  after_appends log [] = log
  after_appends log (event ∷ events) = after_appends (kept log (append rt log event)) events

  kept-IsLog_by :
      (v : Violation) (log : AuditLog) (event : AuditCommit)
      → IsLog rt log
      → append_violation rt log event ≡ v
      → IsLog rt (kept log (raise_or_push v log (committed rt log event)))
  kept-IsLog_by none log event ok e = push-IsLog log event ok e
  kept-IsLog_by (some message) log event ok e = ok

  kept-IsLog :
      (log : AuditLog) (event : AuditCommit)
      → IsLog rt log
      → IsLog rt (kept log (append rt log event))
  unfolding append
  kept-IsLog log event ok = kept-IsLog_by (append_violation rt log event) log event ok refl

  after_appends-IsLog :
      (events : List AuditCommit) (log : AuditLog)
      → IsLog rt log
      → IsLog rt (after_appends log events)
  after_appends-IsLog [] log ok = ok
  after_appends-IsLog (e ∷ es) log ok =
      after_appends-IsLog es (kept log (append rt log e)) (kept-IsLog log e ok)

  -- Whatever events are offered to an empty log, well-formed or not, those that it holds afterwards pass the
  -- chain check of a batch, unless there are none.
  pub appended_chain :
      (events : List AuditCommit)
      → is_empty (after_appends empty_log events).events ≡ false
      → audit_batch_chain_violation rt (after_appends empty_log events).events ≡ none
  appended_chain events some_left =
      (IsChain-iff rt _).1 (
        some_left,
        (after_appends-IsLog events empty_log (record { chain = tt; ids = refl })).chain,
      )

  new_event_fine :
      (log : AuditLog) (draw : EventDraw) (args : RecordArguments)
      → (append_violation rt log (new_event rt draw args) ≡ none) ↔ (
          (contains (new_event rt draw args).audit_id log.audit_ids ≡ false)
          × IsAttributed (new_event rt draw args))
  unfolding append_violation payload_hash_violation new_event
  new_event_fine log draw args =
      let context = context_iff (new_event rt draw args) in
      (
        λ h. (ground arith, context.0 (ground arith)),
        λ f. ground (arith, f.0, context.1 f.1, eq_refl (payload_hash_of rt args.payload)),
      )

  raised_or_pushed :
      (v : Violation) (log : AuditLog) (event : AuditCommit)
      → ((after : AuditLog × AuditCommit) × (raise_or_push v log event ≡ inr after)) ↔ (v ≡ none)
  raised_or_pushed none log event = (λ h. refl, λ e. ((push log event, event), refl))
  raised_or_pushed (some m) log event = (λ h. cc (h.1), λ e. cc)

  -- `record` raises nothing exactly when the drawn identifier is new, and an event about authority is marked as
  -- relevant and names its robot and its mission.
  pub record_event_iff :
      (log : AuditLog) (draw : EventDraw) (args : RecordArguments)
      → ((after : AuditLog × AuditCommit) × (record_event rt log draw args ≡ inr after)) ↔ (
          (contains (new_event rt draw args).audit_id log.audit_ids ≡ false)
          × IsAttributed (new_event rt draw args))
  unfolding record_event append
  record_event_iff log draw args =
      let outcome =
        raised_or_pushed (append_violation rt log (new_event rt draw args)) log
          (committed rt log (new_event rt draw args)) in
      let fine = new_event_fine log draw args in
      (λ h. fine.0 (outcome.0 h), λ f. outcome.1 (fine.1 f))

  -- What `record` adds is the event of its arguments, sealed at the end of the log.
  pub recorded_event :
      (log next : AuditLog) (draw : EventDraw) (args : RecordArguments) (done : AuditCommit)
      → record_event rt log draw args ≡ inr (next, done)
      → committed rt log (new_event rt draw args) ≡ done
  unfolding record_event append
  recorded_event log next draw args done h =
      ap (λ p. p.1) (raise_or_push-inr _ _ _ (next, done) h).1

  pub record_event-IsLog :
      (log next : AuditLog) (draw : EventDraw) (args : RecordArguments) (done : AuditCommit)
      → IsLog rt log
      → record_event rt log draw args ≡ inr (next, done)
      → IsLog rt next × (next.events ≡ log.events ++ (done ∷ []))
  unfolding record_event
  record_event-IsLog log next draw args done ok h =
      append-IsLog log next (new_event rt draw args) done ok h
