-- ===== src/Core/Audit/Chain.antt =====
-- audit.py: `audit_batch_chain_violation`, and what a chain of events is.
pub mod Entries
pub mod Tamper
use rclp.Prelude.{
  ◌≡◌, ◌≢◌, refl, sym, ap, ◌↔◌, Bool, true, false, not, Option, none, some, String, List, [], ◌∷◌,
  ◌++◌, ◌==◌, arith, eq_iff, eq_refl, contains, is_empty, Violation, reject_if, ◌<|>◌, some_inj,
}
use rclp.Core.Models.{AuditCommit}
use rclp.Core.Runtime.{Runtime}
use rclp.Core.Audit.{
  is_authority_event, missing, same_option, context_violation, payload_hash_of, integrity_proof_of,
  last_proof,
}

-- A violation is a failure, whatever its text is.
abbrev pub failed : Violation → Bool
failed none = false
failed (some text) = true

module _ (rt : Runtime) where
  unfoldable pub event_chain_violation : List String → Option String → AuditCommit → Violation
  event_chain_violation audit_ids previous_hash event =
      reject_if (contains event.audit_id audit_ids) "AUDIT_BATCH_DUPLICATE_AUDIT_ID"
      <|> reject_if (failed (context_violation event)) "AUDIT_BATCH_EVENT_CONTEXT_INVALID"
      <|> reject_if (not (same_option event.payload_hash (some (payload_hash_of rt event.payload))))
          "AUDIT_BATCH_EVENT_PAYLOAD_HASH_INVALID"
      <|> reject_if (not (same_option event.previous_audit_hash previous_hash))
          "AUDIT_BATCH_PREVIOUS_HASH_MISMATCH"
      <|> reject_if
          (not
            (same_option event.integrity_proof (some (integrity_proof_of rt event previous_hash))))
          "AUDIT_BATCH_INTEGRITY_PROOF_INVALID"

  -- The loop over the events.
  unfoldable pub events_chain_violation : List String → Option String → List AuditCommit → Violation
  events_chain_violation audit_ids previous_hash [] = none
  events_chain_violation audit_ids previous_hash (event ∷ events) =
      event_chain_violation audit_ids previous_hash event
      <|> events_chain_violation (event.audit_id ∷ audit_ids) event.integrity_proof events

  unfoldable pub audit_batch_chain_violation : List AuditCommit → Violation
  audit_batch_chain_violation events =
      reject_if (is_empty events) "AUDIT_BATCH_EVENTS_REQUIRED"
      <|> events_chain_violation [] none events

-- An event about authority says so, and names its robot and its mission.
pub record IsAttributed (event : AuditCommit) : Type 0 where
  pub relevant : is_authority_event event.event_type ≡ true → event.authority_relevant ≡ true
  pub robot : is_authority_event event.event_type ≡ true → missing event.robot_id ≡ false
  pub mission : is_authority_event event.event_type ≡ true → missing event.mission_id ≡ false

pub context_iff : (event : AuditCommit) → (context_violation event ≡ none) ↔ IsAttributed event
unfolding context_violation
context_iff event = (
  λ h. record {
    relevant = λ a. ground arith;
    robot = λ a. ground arith;
    mission = λ a. ground arith;
  },
  λ f. ground (arith, f.relevant, f.robot, f.mission),
)

-- Sealed after the event with the given proof: attributed, with the hash of its payload, pointing to that
-- proof, and proved itself.
pub record IsSealed (rt : Runtime) (previous : Option String) (event : AuditCommit) : Type 0 where
  pub attributed : IsAttributed event
  pub payload : event.payload_hash ≡ some (payload_hash_of rt event.payload)
  pub link : event.previous_audit_hash ≡ previous
  pub proof : event.integrity_proof ≡ some (integrity_proof_of rt event previous)

pub same_option_iff : (a b : Option String) → (same_option a b ≡ true) ↔ (a ≡ b)
same_option_iff none none = (λ h. refl, λ e. refl)
same_option_iff none (some b) = (λ h. cc, λ e. cc)
same_option_iff (some a) none = (λ h. cc, λ e. cc)
same_option_iff (some a) (some b) =
    (λ h. ap some ((eq_iff a b).0 h), λ e. (eq_iff a b).1 (some_inj e))

-- A chain of events whose identifiers differ from each other and from those before.
abbrev pub IsChain : Runtime → List String → Option String → List AuditCommit → Type 0
IsChain rt audit_ids previous [] = Unit
IsChain rt audit_ids previous (event ∷ events) =
    (contains event.audit_id audit_ids ≡ false)
    × IsSealed rt previous event
    × IsChain rt (event.audit_id ∷ audit_ids) event.integrity_proof events

-- The identifiers of the events, newest first, before those that were there.
abbrev pub ids_after : List String → List AuditCommit → List String
ids_after audit_ids [] = audit_ids
ids_after audit_ids (event ∷ events) = ids_after (event.audit_id ∷ audit_ids) events

module _ (rt : Runtime) where
  event_iff :
      (audit_ids : List String) (previous : Option String) (event : AuditCommit)
      → (event_chain_violation rt audit_ids previous event ≡ none)
        ↔ ((contains event.audit_id audit_ids ≡ false) × IsSealed rt previous event)
  unfolding event_chain_violation
  event_iff audit_ids previous event =
      let context = context_iff event in
      let payload = same_option_iff event.payload_hash (some (payload_hash_of rt event.payload)) in
      let link = same_option_iff event.previous_audit_hash previous in
      let proof =
        same_option_iff event.integrity_proof (some (integrity_proof_of rt event previous)) in
      (
        λ h. (
          ground arith,
          record {
            attributed = context.0 (ground arith);
            payload = payload.0 (ground arith);
            link = link.0 (ground arith);
            proof = proof.0 (ground arith);
          },
        ),
        λ f. ground (
          arith,
          f.0,
          context.1 f.1.attributed,
          payload.1 f.1.payload,
          link.1 f.1.link,
          proof.1 f.1.proof,
        ),
      )

  events_iff :
      (audit_ids : List String) (previous : Option String) (events : List AuditCommit)
      → (events_chain_violation rt audit_ids previous events ≡ none)
        ↔ IsChain rt audit_ids previous events
  unfolding events_chain_violation
  events_iff audit_ids previous [] = (λ h. tt, λ f. refl)
  events_iff audit_ids previous (event ∷ events) =
      let here = event_iff audit_ids previous event in
      let there = events_iff (event.audit_id ∷ audit_ids) event.integrity_proof events in
      (
        λ h. let a = here.0 (ground arith) in (a.0, a.1, there.0 (ground arith)),
        λ f. ground (arith, here.1 (f.0, f.1), there.1 f.2),
      )

  -- A list of events is accepted exactly when it is a chain from the start, and not empty.
  pub IsChain-iff :
      (events : List AuditCommit)
      → (audit_batch_chain_violation rt events ≡ none)
        ↔ ((is_empty events ≡ false) × IsChain rt [] none events)
  unfolding audit_batch_chain_violation
  IsChain-iff events =
      let all = events_iff [] none events in
      (λ h. (ground arith, all.0 (ground arith)), λ f. ground (arith, f.0, all.1 f.1))

  -- One event more at the end.
  pub IsChain-append :
      (audit_ids : List String) (previous : Option String) (events : List AuditCommit)
      (event : AuditCommit)
      → IsChain rt audit_ids previous events
      → contains event.audit_id (ids_after audit_ids events) ≡ false
      → IsSealed rt (last_proof previous events) event
      → IsChain rt audit_ids previous (events ++ (event ∷ []))
  unfolding last_proof
  IsChain-append audit_ids previous [] event c new s = (new, s, tt)
  IsChain-append audit_ids previous (e ∷ es) event c new s =
      (c.0, c.1, IsChain-append (e.audit_id ∷ audit_ids) e.integrity_proof es event c.2 new s)
