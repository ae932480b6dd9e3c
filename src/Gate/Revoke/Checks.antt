-- ===== src/Gate/Revoke/Checks.antt =====
-- command_gate.py: the guards of `CommandGate.revoke`, in its order. A revoker's scope is the list of
-- the elements of its set in sorted order.
pub mod Context
pub mod Spec
use rclp.Prelude.{
  ℕ, ◌+◌, Bool, true, false, not, ◌||◌, Option, none, some, String, List, [], ◌∷◌, ◌==◌, ltb,
  lookup, contains, Violation, reject_if, ◌<|>◌, format,
}
use rclp.Core.Time.{Instant, utc, seconds, instant}
use rclp.Core.Time.Fresh.{timestamps_violation}
use rclp.Core.Models.{
  CapabilityLease, LeaseRevocation, Capability, capability_text, protocol_version_violation,
  signature_algorithm_violation, revocation_message,
}
use rclp.Core.Runtime.{Runtime}
use rclp.Core.Crypto.{verify_with_public_key_b64}
use rclp.Core.SignedText.{signed_revocation_material_budget_violation}
use rclp.Gate.Revocations.{RevokedLease}
use rclp.Gate.State.{Gate, AuditEntry}
use rclp.Gate.Revoke.Entries.{
  rejected_revocation, not_local_entry, not_trusted_entry, not_scoped_entry, other_lease_entry,
  other_context_entry,
}

abbrev pub revocation_clock_skew_seconds : ℕ
revocation_clock_skew_seconds = 30

-- `revoked_at < created_at - timedelta(seconds=skew)`, of aware timestamps.
abbrev revoked_before : ℕ → Option Instant → Option Instant → Bool
revoked_before skew (some revoked_at) (some created_at) =
    ltb (utc revoked_at + seconds skew) (utc created_at)
revoked_before skew revoked_at created_at = false

-- `_revocation_time_violation`
unfoldable pub revocation_time_violation : Gate → LeaseRevocation → Instant → Violation
revocation_time_violation gate revocation now =
    timestamps_violation now revocation_clock_skew_seconds
      (gate.max_revocation_age_seconds + revocation_clock_skew_seconds)
      "REVOCATION_TIMESTAMP_INVALID" "REVOCATION_NOT_YET_VALID" "REVOCATION_STALE"
      (revocation.created_at ∷ revocation.revoked_at ∷ [])
    <|> reject_if
        (revoked_before revocation_clock_skew_seconds (instant revocation.revoked_at)
          (instant revocation.created_at))
        "REVOCATION_TIME_INCONSISTENT"

-- `claimed is not None and claimed != actual`
abbrev conflicts : Option String → String → Bool
conflicts none actual = false
conflicts (some claimed) actual = not (claimed == actual)

abbrev capability_conflicts : Option Capability → Capability → Bool
capability_conflicts none actual = false
capability_conflicts (some claimed) actual = not (capability_text claimed == capability_text actual)

-- `_revocation_context_conflicts`
unfoldable pub revocation_context_conflicts : LeaseRevocation → CapabilityLease → Bool
revocation_context_conflicts revocation lease =
    not (revocation.edge_agent_id == lease.edge_agent_id)
    || conflicts revocation.robot_id lease.robot_id
    || conflicts revocation.mission_id lease.mission_id
    || capability_conflicts revocation.capability lease.capability

-- A rejection is the audit event that it leaves.
abbrev pub Rejection : Type 0
Rejection = Option AuditEntry

infixr 20 ◌otherwise◌
abbrev pub ◌otherwise◌ : Rejection → Rejection → Rejection
some entry otherwise rest = some entry
none otherwise rest = rest

abbrev pub refuse_if : Bool → AuditEntry → Rejection
refuse_if true entry = some entry
refuse_if false entry = none

abbrev pub refuse_for : Violation → (String → AuditEntry) → Rejection
refuse_for (some reason) entry = some (entry reason)
refuse_for none entry = none

abbrev pub needs : Option String → AuditEntry → (String → Rejection) → Rejection
needs none entry rest = some entry
needs (some a) entry rest = rest a

abbrev scope_of : Option (List String) → List String
scope_of none = []
scope_of (some scope) = scope

-- The record that is stored.
abbrev pub revoked_lease : LeaseRevocation → CapabilityLease → RevokedLease
revoked_lease revocation lease = record {
  lease_id = revocation.lease_id;
  issuer_id = lease.issuer_id;
  agent_id = lease.agent_id;
  edge_agent_id = lease.edge_agent_id;
  robot_id = lease.robot_id;
  mission_id = lease.mission_id;
  capability = capability_text lease.capability;
  reason_code = revocation.reason_code;
  fallback_action = some revocation.fallback_action;
  revocation_id = some revocation.message_id;
  correlation_id = some revocation.correlation_id;
}

module _ (rt : Runtime) (gate : Gate) (revocation : LeaseRevocation) (lease : CapabilityLease) where
  -- After the signature: the revoker's scope, the times, and the context of the lease.
  unfoldable pub revocation_scope_checks : Instant → List String → Rejection
  revocation_scope_checks now scope =
      refuse_if (not (contains lease.edge_agent_id scope))
        (not_scoped_entry rt revocation lease scope)
      otherwise refuse_for (revocation_time_violation gate revocation now) (λ reason.
        rejected_revocation rt revocation lease reason
          (format ("revocation rejected because it is not fresh: " ∷ reason ∷ [])) true)
      otherwise refuse_if (not (lease.lease_id == revocation.lease_id))
          (other_lease_entry rt revocation lease)
      otherwise refuse_if (revocation_context_conflicts revocation lease)
          (other_context_entry rt revocation lease)

  unfoldable pub revocation_key_checks : Instant → String → String → Rejection
  revocation_key_checks now signature public_key =
      refuse_if
        (not (verify_with_public_key_b64 rt (revocation_message revocation) signature public_key))
        (rejected_revocation rt revocation lease "REVOCATION_SIGNATURE_INVALID"
          "revocation rejected because signature is invalid" false)
      otherwise revocation_scope_checks now
          (scope_of (lookup revocation.revoked_by gate.revoker_edge_scopes_by_id))

  unfoldable pub revocation_signature_checks : Instant → String → Rejection
  revocation_signature_checks now signature =
      refuse_if (signed_revocation_material_budget_violation rt revocation) (
        rejected_revocation rt revocation lease "REVOCATION_SIGNED_MATERIAL_TOO_LARGE"
          "revocation rejected because signed material is too large" false)
      otherwise needs (lookup revocation.revoked_by gate.revoker_public_keys_by_id)
          (rejected_revocation rt revocation lease "REVOCATION_KEY_NOT_TRUSTED"
            "revocation rejected because revoker key is not trusted" false)
          (revocation_key_checks now signature)

  unfoldable pub revocation_rejection : Instant → Rejection
  revocation_rejection now =
      refuse_for (protocol_version_violation (revocation.base ∷ [])) (λ reason.
        rejected_revocation rt revocation lease reason
          "revocation rejected because protocol version is unsupported" false)
      otherwise refuse_if
          (not (lease.edge_agent_id == gate.local_edge_agent_id)
            || not (revocation.edge_agent_id == gate.local_edge_agent_id))
          (not_local_entry rt revocation lease gate.local_edge_agent_id)
      otherwise refuse_if (not (contains revocation.revoked_by gate.trusted_revoker_ids))
          (not_trusted_entry rt revocation lease)
      otherwise refuse_for
          (signature_algorithm_violation revocation.base revocation.signature_alg
            "REVOCATION_SIGNATURE_ALGORITHM_MISSING" "REVOCATION_SIGNATURE_ALGORITHM_UNSUPPORTED")
          (λ reason.
            rejected_revocation rt revocation lease reason
              "revocation rejected because signature algorithm is unsupported" false)
      otherwise needs revocation.signature
          (rejected_revocation rt revocation lease "REVOCATION_SIGNATURE_MISSING"
            "revocation rejected because signature is missing" false)
          (revocation_signature_checks now)
