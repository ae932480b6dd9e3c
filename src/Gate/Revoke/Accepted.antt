-- ===== src/Gate/Revoke/Accepted.antt =====
-- When `CommandGate.revoke` accepts a revocation.
use rclp.Prelude.{
  ◌≡◌, refl, ◌∙◌, subst, Bool, true, false, none, some, arith, inl, inr, ap, not, Option-cases, ◌↔◌,
  contains,
}
use rclp.Core.Time.{Instant}
use rclp.Core.Models.{CapabilityLease, LeaseRevocation}
use rclp.Core.Runtime.{Runtime}
use rclp.Core.Conformance.{Outcome, returns}
use rclp.Gate.Revocations.{Tables, RevocationStore, record_in, record_checked, record_revocation}
use rclp.Gate.Revocations.Durable.{record_once}
use rclp.Gate.State.{Gate, GateState, emit_fallback}
use rclp.Gate.Revoke.Checks.{Rejection, revoked_lease, revocation_rejection}
use rclp.Gate.Revoke.Checks.Spec.{IsAccepted, revocation_rejection_iff}
use rclp.Gate.Revoke.{message, revoke_recorded, by_record, by_rejection, revoke}
use rclp.Gate.Revoke.Effect.{was_revoked, rejection-outcome}

module _ (rt : Runtime) (gate : Gate) (revocation : LeaseRevocation) (lease : CapabilityLease) where
  by_record-revoked :
      (g : GateState) (store : RevocationStore) (o : Outcome Bool)
      → o ≡ returns true
      → was_revoked (by_record rt gate revocation lease g (store, o)).1 ≡ true
  unfolding by_record revoke_recorded emit_fallback
  by_record-revoked g store o e = rw e refl

  by_rejection-revoked :
      (g : GateState) (r : Rejection)
      → r ≡ none
      → (record_revocation g.store (revoked_lease revocation lease)).1 ≡ returns true
      → was_revoked (by_rejection rt gate revocation lease g r).1 ≡ true
  unfolding by_rejection
  by_rejection-revoked g r e done = rw e (
      by_record-revoked g (record_revocation g.store (revoked_lease revocation lease)).0
        (record_revocation g.store (revoked_lease revocation lease)).1 done)

  is_recorded :
      (store : RevocationStore)
      → ((record_revocation store (revoked_lease revocation lease)).1 ≡ returns true) ↔ (
          (tables : Tables) × (store.tables ≡ some tables)
          × (contains revocation.message_id tables.revocation_messages ≡ false))
  unfolding record_revocation record_checked record_in
  is_recorded store = elim (Option-cases store.tables) [
    | inl missing ↦
        (λ h. let none_stored = rw missing at h in cc none_stored, λ f. cc (f.1, missing))
    | inr (tables, given) ↦
        let once = record_once store (revoked_lease revocation lease) given refl in
        (
          λ h. (tables, given, ground (arith, once, h)),
          λ f.
              let same : f.0 ≡ tables = cc (f.1, given) in
              let new : contains revocation.message_id tables.revocation_messages ≡ false =
                subst (λ (t : Tables). contains revocation.message_id t.revocation_messages ≡ false)
                  same f.2 in
              once ∙ ap (λ b. returns (not b)) new,
        )
  ]

  -- A revocation of a lease that the gate is given is accepted, so that a fallback is declared, exactly when it
  -- is fresh, from a trusted revoker, signed under its key, within the revoker's scope, and about the given
  -- lease of this edge, the store has a database, and no message of its identifier is recorded there.
  pub revoke_iff :
      (g : GateState) (now : Instant)
      → (was_revoked (revoke rt gate g (message revocation) (some lease) now).1 ≡ true) ↔ (
          IsAccepted rt gate revocation lease now
          × (tables : Tables) × (g.store.tables ≡ some tables)
          × (contains revocation.message_id tables.revocation_messages ≡ false))
  unfolding revoke
  revoke_iff g now =
      let guards = revocation_rejection_iff rt gate revocation lease now in
      let recorded = is_recorded g.store in
      (
        λ h.
            let (passed, done, _) =
              rejection-outcome rt gate revocation lease g
                (revocation_rejection rt gate revocation lease now) h in
            let (tables, given, new) = recorded.0 done in (guards.0 passed, tables, given, new),
        λ f.
            by_rejection-revoked g (revocation_rejection rt gate revocation lease now)
              (guards.1 f.0) (recorded.1 (f.1, f.2, f.3)),
      )
