-- ===== src/Gate/Revoke/Effect.antt =====
-- What `CommandGate.revoke` changes, and what it asks for.
use rclp.Prelude.{
  ◌≡◌, ◌≢◌, refl, ◌∙◌, subst, Bool, true, false, Option, none, some, String, List, arith, eq_refl,
  lookup, insert, lookup-insert,
}
use rclp.Core.Time.{Instant}
use rclp.Core.Models.{CapabilityLease, LeaseRevocation, FallbackDeclaration}
use rclp.Core.Runtime.{Runtime}
use rclp.Core.Conformance.{Outcome, returns, raises}
use rclp.Gate.Revocations.{RevokedLease, RevocationStore, record_revocation, load_all}
use rclp.Gate.Revocations.Durable.{load_all-record, load_all-unrecorded}
use rclp.Gate.State.{Gate, GateState}
use rclp.Gate.State.Keeps.{Keeps, record_audit-Keeps, emit_fallback-Keeps, Keeps-trans}
use rclp.Gate.Revoke.Checks.{Rejection, revoked_lease, revocation_rejection}
use rclp.Gate.Revoke.{
  RevocationInput, raw_lease_id, message, revoke_recorded, by_record, by_rejection, revoke,
}

-- The revocations in memory are those that a restart would load.
abbrev pub InSync : GateState → Type 0
InSync g = (k : String) → lookup k g.revocations ≡ lookup k (load_all g.store)

-- Every lease that was revoked still is.
abbrev pub RevocationsGrow : GateState → GateState → Type 0
RevocationsGrow old new =
    (k : String) → lookup k old.revocations ≢ none → lookup k new.revocations ≢ none

insert_grows :
    (k j : String) (r : RevokedLease) (m : List (String × RevokedLease))
    → lookup k m ≢ none
    → lookup k (insert j r m) ≢ none
insert_grows k j r m h = λ e. h (ground (arith, lookup-insert j k r m, e))

-- What a call of `revoke` leaves behind.
pub record Revokes (old new : GateState) : Type 0 where
  pub replay : new.replay ≡ old.replay
  pub grows : RevocationsGrow old new
  pub in_sync : InSync old → InSync new

Keeps-Revokes : {g h : GateState} → Keeps g h → Revokes g h
Keeps-Revokes {g} {h} k = record {
  replay = k.replay;
  grows = λ l r. rw k.revocations r;
  in_sync = λ s l. rw (k.revocations, k.store) (s l);
}

Revokes-trans : {a b c : GateState} → Revokes a b → Revokes b c → Revokes a c
Revokes-trans p q = record {
  replay = q.replay ∙ p.replay;
  grows = λ k h. q.grows k (p.grows k h);
  in_sync = λ sync. q.in_sync (p.in_sync sync);
}

module _ (rt : Runtime) (gate : Gate) (revocation : LeaseRevocation) (lease : CapabilityLease) where
  recorded-Keeps :
      (g : GateState)
      → Keeps
          (record g {
            revocations = insert revocation.lease_id (revoked_lease revocation lease) g.revocations;
          })
          (revoke_recorded rt gate revocation lease g).0
  unfolding revoke_recorded
  recorded-Keeps g = Keeps-trans (record_audit-Keeps _ _) (emit_fallback-Keeps rt gate _ _)

  unrecorded-Revokes :
      (g : GateState)
      → (record_revocation g.store (revoked_lease revocation lease)).1 ≢ returns true
      → Revokes g
          (record g { store = (record_revocation g.store (revoked_lease revocation lease)).0 })
  unrecorded-Revokes g failed = record {
    replay = refl;
    grows = λ k h. h;
    in_sync =
        λ sync k. rw (load_all-unrecorded g.store (revoked_lease revocation lease) failed) (sync k);
  }

  recorded-Revokes :
      (g : GateState)
      → (record_revocation g.store (revoked_lease revocation lease)).1 ≡ returns true
      → Revokes g (record g {
        store = (record_revocation g.store (revoked_lease revocation lease)).0;
        revocations = insert revocation.lease_id (revoked_lease revocation lease) g.revocations;
      })
  recorded-Revokes g done = record {
    replay = refl;
    grows = λ k. insert_grows k revocation.lease_id (revoked_lease revocation lease) g.revocations;
    in_sync = λ sync k.
        rw
          (
            lookup-insert revocation.lease_id k (revoked_lease revocation lease) g.revocations,
            load_all-record g.store (revoked_lease revocation lease) k done,
            sync k,
          )
          refl;
  }

  record-Revokes :
      (g : GateState) (store : RevocationStore) (o : Outcome Bool)
      → record_revocation g.store (revoked_lease revocation lease) ≡ (store, o)
      → Revokes g (by_record rt gate revocation lease g (store, o)).0
  unfolding by_record
  record-Revokes g store (raises e) s =
      subst (λ (x : RevocationStore × Outcome Bool). Revokes g (record g { store = x.0 })) s
        (unrecorded-Revokes g (λ t. cc (s, t)))
  record-Revokes g store (returns false) s =
      Revokes-trans
        (subst (λ (x : RevocationStore × Outcome Bool). Revokes g (record g { store = x.0 })) s
          (unrecorded-Revokes g (λ t. cc (s, t))))
        (Keeps-Revokes (record_audit-Keeps _ (record g { store = store })))
  record-Revokes g store (returns true) s =
      Revokes-trans
        (subst
          (λ (x : RevocationStore × Outcome Bool). Revokes g (record g {
            store = x.0;
            revocations = insert revocation.lease_id (revoked_lease revocation lease) g.revocations;
          }))
          s (recorded-Revokes g (cc s)))
        (Keeps-Revokes (recorded-Keeps (record g { store = store })))

  rejection-Revokes :
      (g : GateState) (r : Rejection) → Revokes g (by_rejection rt gate revocation lease g r).0
  unfolding by_rejection
  rejection-Revokes g (some entry) = Keeps-Revokes (record_audit-Keeps entry g)
  rejection-Revokes g none = record-Revokes g _ _ refl

-- Whatever its input, `revoke` leaves the replay cache as it is, un-revokes no lease, and keeps the
-- revocations in memory those that a restart would load.
pub revoke-Revokes :
    (rt : Runtime) (gate : Gate) (g : GateState) (input : RevocationInput)
    (lease : Option CapabilityLease) (now : Instant)
    → Revokes g (revoke rt gate g input lease now).0
unfolding revoke
revoke-Revokes rt gate g (raw_lease_id raw) none now = record {
  replay = refl;
  grows = λ k h. h;
  in_sync = λ sync. sync;
}
revoke-Revokes rt gate g (raw_lease_id raw) (some lease) now =
    Keeps-Revokes (record_audit-Keeps _ g)
revoke-Revokes rt gate g (message revocation) none now = Keeps-Revokes (record_audit-Keeps _ g)
revoke-Revokes rt gate g (message revocation) (some lease) now =
    rejection-Revokes rt gate revocation lease g (revocation_rejection rt gate revocation lease now)

-- Whether the call declared a fallback, as only an accepted revocation does.
abbrev pub was_revoked : Outcome (Option FallbackDeclaration) → Bool
was_revoked (raises exception) = false
was_revoked (returns none) = false
was_revoked (returns (some declaration)) = true

module _ (rt : Runtime) (gate : Gate) (revocation : LeaseRevocation) (lease : CapabilityLease) where
  record-outcome :
      (g : GateState) (store : RevocationStore) (o : Outcome Bool)
      → was_revoked (by_record rt gate revocation lease g (store, o)).1 ≡ true
      → (o ≡ returns true)
        × (lookup revocation.lease_id
              (by_record rt gate revocation lease g (store, o)).0.revocations
            ≡ some (revoked_lease revocation lease))
  unfolding by_record
  record-outcome g store (raises e) h = cc
  record-outcome g store (returns false) h = cc
  record-outcome g store (returns true) h = (
    refl,
    rw (recorded-Keeps rt gate revocation lease (record g { store = store })).revocations (
        lookup-insert revocation.lease_id revocation.lease_id (revoked_lease revocation lease)
          g.revocations
        ∙ ground (arith, eq_refl revocation.lease_id)),
  )

  pub rejection-outcome :
      (g : GateState) (r : Rejection)
      → was_revoked (by_rejection rt gate revocation lease g r).1 ≡ true
      → (r ≡ none)
        × ((record_revocation g.store (revoked_lease revocation lease)).1 ≡ returns true)
        × (lookup revocation.lease_id (by_rejection rt gate revocation lease g r).0.revocations
            ≡ some (revoked_lease revocation lease))
  unfolding by_rejection
  rejection-outcome g (some entry) h = cc
  rejection-outcome g none h =
      let (recorded, known) = record-outcome g _ _ h in (refl, recorded, known)

  -- A revocation that is accepted has passed every guard and was recorded as new by the store, and after the
  -- call the gate has its lease among the revoked ones.
  pub revoke_accepted :
      (g : GateState) (now : Instant)
      → was_revoked (revoke rt gate g (message revocation) (some lease) now).1 ≡ true
      → (revocation_rejection rt gate revocation lease now ≡ none)
        × ((record_revocation g.store (revoked_lease revocation lease)).1 ≡ returns true)
        × (lookup revocation.lease_id
              (revoke rt gate g (message revocation) (some lease) now).0.revocations
            ≡ some (revoked_lease revocation lease))
  unfolding revoke
  revoke_accepted g now h =
      rejection-outcome g (revocation_rejection rt gate revocation lease now) h
