-- ===== src/Gate/State/Keeps.antt =====
-- What a call leaves alone: the replay cache, the revocations and the events already recorded.
use rclp.Prelude.{◌≡◌, refl, ap, ◌∙◌, Bool, true, false, List, [], ◌∷◌, ◌++◌, if◌then◌else◌}
use rclp.Core.Models.{FallbackDeclaration}
use rclp.Core.Runtime.{Runtime}
use rclp.Gate.State.{Gate, GateState, AuditEntry, record_audit, emit_fallback}

-- The new state has the old one's replay cache and revocations, and its events below new ones.
pub record Keeps (old new : GateState) : Type 0 where
  pub replay : new.replay ≡ old.replay
  pub store : new.store ≡ old.store
  pub revocations : new.revocations ≡ old.revocations
  pub first : AuditEntry
  pub more : List AuditEntry
  pub audit : new.audit ≡ more ++ (first ∷ old.audit)

sink-Keeps :
    (sinks : Bool) (d : FallbackDeclaration) (entry : AuditEntry) (g : GateState)
    (events sunk : List FallbackDeclaration)
    → let audited = record_audit entry (record g { fallback_events = events }) in
      Keeps g (if sinks then record audited { sunk = d ∷ sunk } else audited)
unfolding record_audit
sink-Keeps true d entry g events sunk = record {
  replay = refl;
  store = refl;
  revocations = refl;
  first = entry;
  more = [];
  audit = refl;
}
sink-Keeps false d entry g events sunk = record {
  replay = refl;
  store = refl;
  revocations = refl;
  first = entry;
  more = [];
  audit = refl;
}

pub emit_fallback-Keeps :
    (rt : Runtime) (gate : Gate) (d : FallbackDeclaration) (g : GateState)
    → Keeps g (emit_fallback rt gate d g).0
unfolding emit_fallback record_audit
emit_fallback-Keeps rt gate d g = sink-Keeps gate.has_sink _ _ g _ g.sunk

pub record_audit-Keeps : (entry : AuditEntry) (g : GateState) → Keeps g (record_audit entry g)
unfolding record_audit
record_audit-Keeps entry g = record {
  replay = refl;
  store = refl;
  revocations = refl;
  first = entry;
  more = [];
  audit = refl;
}

append_assoc {ℓ} : {A : Type ℓ} (xs ys zs : List A) → xs ++ (ys ++ zs) ≡ (xs ++ ys) ++ zs
append_assoc [] ys zs = refl
append_assoc (x ∷ xs) ys zs = ap (λ l. x ∷ l) (append_assoc xs ys zs)

pub Keeps-trans : {a b c : GateState} → Keeps a b → Keeps b c → Keeps a c
Keeps-trans {a} {b} {c} p q = record {
  replay = q.replay ∙ p.replay;
  store = q.store ∙ p.store;
  revocations = q.revocations ∙ p.revocations;
  first = p.first;
  more = q.more ++ (q.first ∷ p.more);
  audit = rw (q.audit, p.audit) (append_assoc q.more (q.first ∷ p.more) (p.first ∷ a.audit));
}
