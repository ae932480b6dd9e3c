-- ===== src/Gate/Revoke.antt =====
-- command_gate.py: `CommandGate.revoke`. Every rejection but a replay raises `ValueError`, after its
-- audit event.
pub mod Entries
pub mod Checks
pub mod Effect
pub mod Accepted
use rclp.Prelude.{
  ℕ, ◌+◌, Bool, true, false, not, ◌||◌, Option, none, some, String, List, [], ◌∷◌, ◌==◌, ltb,
  lookup, contains, insert, Violation, reject_if, ◌<|>◌, require, if◌then◌else◌, format,
}
use rclp.Core.Time.{Instant, Timestamp, utc, seconds, instant}
use rclp.Core.Time.Fresh.{timestamps_violation}
use rclp.Core.Models.{
  CapabilityLease, LeaseRevocation, FallbackDeclaration, FallbackAction, Capability,
  capability_text, protocol_version_violation, signature_algorithm_violation, revocation_message,
  ed25519_signature_algorithm,
}
use rclp.Core.Runtime.{Runtime}
use rclp.Core.Crypto.{verify_with_public_key_b64}
use rclp.Core.SignedText.{signed_revocation_material_budget_violation}
use rclp.Core.Conformance.{Outcome, returns, raises}
use rclp.Gate.Revocations.{RevokedLease, RevocationStore, record_revocation}
use rclp.Gate.State.{
  Gate, GateState, AuditEntry, record_audit, local_fallback_action, fresh_base, emit_fallback,
}
use rclp.Gate.Revoke.Entries.{
  or_text, raw_id_entry, no_lease_entry, rejected_revocation, not_local_entry, not_trusted_entry,
  not_scoped_entry, other_lease_entry, other_context_entry, revoked_entry,
}
use rclp.Gate.Revoke.Checks.{Rejection, revoked_lease, revocation_rejection}

pub data RevocationInput : Type 0 where
  raw_lease_id : String → RevocationInput
  message : LeaseRevocation → RevocationInput

module _ (rt : Runtime) (gate : Gate) (revocation : LeaseRevocation) (lease : CapabilityLease) where
  unfoldable pub revocation_declaration : GateState → FallbackAction → FallbackDeclaration
  revocation_declaration g fallback = record {
    base = fresh_base rt g (or_text revocation.correlation_id lease.lease_id) (
        "correlation_id" ∷ "robot_id" ∷ "edge_agent_id" ∷ "mission_id" ∷ "trigger"
        ∷ "fallback_action" ∷ "declared_by" ∷ "lease_id" ∷ "revocation_id" ∷ []);
    robot_id = lease.robot_id;
    edge_agent_id = lease.edge_agent_id;
    mission_id = lease.mission_id;
    trigger = revocation.reason_code;
    fallback_action = fallback;
    declared_by = lease.edge_agent_id;
    authenticated_declared_by = none;
    lease_id = some lease.lease_id;
    decision_id = none;
    revocation_id = some revocation.message_id;
    signature_alg = ed25519_signature_algorithm;
    signature = none;
  }

  -- Once the store has the record: memory, audit event, fallback.
  unfoldable pub revoke_recorded : GateState → GateState × Outcome (Option FallbackDeclaration)
  revoke_recorded g =
      let known = record g {
        revocations = insert revocation.lease_id (revoked_lease revocation lease) g.revocations;
      } in
      let fallback = local_fallback_action gate revocation.reason_code in
      let audited = record_audit (revoked_entry rt revocation lease fallback) known in
      let (after, signed) =
        emit_fallback rt gate (revocation_declaration audited fallback) audited in
      (after, returns (some signed))

  unfoldable pub by_record :
      GateState → RevocationStore × Outcome Bool → GateState × Outcome (Option FallbackDeclaration)
  by_record g (store, raises exception) = (record g { store = store }, raises exception)
  by_record g (store, returns false) = (
    record_audit
        (rejected_revocation rt revocation lease "REVOCATION_REPLAYED"
          "revocation rejected because revocation_id was already accepted" true)
        (record g { store = store }),
    returns none,
  )
  by_record g (store, returns true) = revoke_recorded (record g { store = store })

  unfoldable pub by_rejection :
      GateState → Rejection → GateState × Outcome (Option FallbackDeclaration)
  by_rejection g (some entry) = (record_audit entry g, raises "ValueError")
  by_rejection g none = by_record g (record_revocation g.store (revoked_lease revocation lease))

unfoldable pub revoke :
    Runtime
    → Gate
    → GateState
    → RevocationInput
    → Option CapabilityLease
    → Instant
    → GateState × Outcome (Option FallbackDeclaration)
revoke rt gate g (raw_lease_id raw) none now = (g, raises "ValueError")
revoke rt gate g (raw_lease_id raw) (some lease) now =
    (record_audit (raw_id_entry rt lease raw) g, raises "ValueError")
revoke rt gate g (message revocation) none now =
    (record_audit (no_lease_entry rt revocation) g, raises "ValueError")
revoke rt gate g (message revocation) (some lease) now =
    by_rejection rt gate revocation lease g (revocation_rejection rt gate revocation lease now)
