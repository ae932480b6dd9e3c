-- ===== src/Gate/Revoke/Checks/Spec.antt =====
-- Which revocations are accepted.
use rclp.Prelude.{
  ◌≡◌, ◌↔◌, refl, true, false, Option, none, some, String, arith, eq_iff, contains, lookup,
}
use rclp.Core.Time.{Instant}
use rclp.Core.Models.{
  CapabilityLease, LeaseRevocation, revocation_message, protocol_version_violation-none_iff,
  signature_algorithm_violation-none_iff, supported_protocol_version, ed25519_signature_algorithm,
}
use rclp.Core.Runtime.{Runtime}
use rclp.Core.Crypto.{verify_with_public_key_b64}
use rclp.Core.SignedText.{signed_revocation_material_budget_violation}
use rclp.Gate.State.{Gate}
use rclp.Gate.Revoke.Checks.{
  scope_of, revocation_scope_checks, revocation_key_checks, revocation_signature_checks,
  revocation_rejection,
}
use rclp.Gate.Revoke.Checks.Context.{
  IsTimely, HasContextOf, revocation_time_iff, revocation_context_iff,
}

-- A fresh message of a trusted revoker, signed under its key, scoped to this edge and to the lease.
pub record IsAccepted (rt : Runtime) (gate : Gate) (revocation : LeaseRevocation)
    (lease : CapabilityLease) (now : Instant) : Type 0 where
  pub public_key : String
  pub signature : String
  pub version : revocation.protocol_version ≡ supported_protocol_version
  pub local_lease : lease.edge_agent_id ≡ gate.local_edge_agent_id
  pub local_revocation : revocation.edge_agent_id ≡ gate.local_edge_agent_id
  pub trusted : contains revocation.revoked_by gate.trusted_revoker_ids ≡ true
  pub algorithm_given : contains "signature_alg" revocation.model_fields_set ≡ true
  pub algorithm : revocation.signature_alg ≡ ed25519_signature_algorithm
  pub signed : revocation.signature ≡ some signature
  pub small : signed_revocation_material_budget_violation rt revocation ≡ false
  pub key_found : lookup revocation.revoked_by gate.revoker_public_keys_by_id ≡ some public_key
  pub verified :
      verify_with_public_key_b64 rt (revocation_message revocation) signature public_key ≡ true
  pub scoped :
      contains lease.edge_agent_id
        (scope_of (lookup revocation.revoked_by gate.revoker_edge_scopes_by_id))
      ≡ true
  pub timely : IsTimely gate revocation now
  pub same_lease : lease.lease_id ≡ revocation.lease_id
  pub same_context : HasContextOf lease revocation

module _ (rt : Runtime) (gate : Gate) (revocation : LeaseRevocation) (lease : CapabilityLease)
    (now : Instant) where
  IsAccepted-of :
      (key signature : Option String)
      → lookup revocation.revoked_by gate.revoker_public_keys_by_id ≡ key
      → revocation.signature ≡ signature
      → revocation_rejection rt gate revocation lease now ≡ none
      → IsAccepted rt gate revocation lease now
  unfolding revocation_rejection revocation_signature_checks revocation_key_checks
      revocation_scope_checks
  IsAccepted-of none none k s h = ground (arith, k, s)
  IsAccepted-of none (some z) k s h = ground (arith, k, s)
  IsAccepted-of (some y) none k s h = ground (arith, k, s)
  IsAccepted-of (some y) (some z) k s h =
      let alg =
        (signature_algorithm_violation-none_iff revocation.base revocation.signature_alg
            "REVOCATION_SIGNATURE_ALGORITHM_MISSING" "REVOCATION_SIGNATURE_ALGORITHM_UNSUPPORTED").0
          (ground (arith, k, s)) in
      record {
        public_key = y;
        signature = z;
        version = (protocol_version_violation-none_iff revocation.base).0 (ground (arith, k, s));
        local_lease = ground (arith, k, s, eq_iff lease.edge_agent_id gate.local_edge_agent_id);
        local_revocation =
            ground (arith, k, s, eq_iff revocation.edge_agent_id gate.local_edge_agent_id);
        trusted = ground (arith, k, s);
        algorithm_given = alg.0;
        algorithm = alg.1;
        signed = s;
        small = ground (arith, k, s);
        key_found = k;
        verified = ground (arith, k, s);
        scoped = ground (arith, k, s);
        timely = (revocation_time_iff gate revocation now).0 (ground (arith, k, s));
        same_lease = ground (arith, k, s, eq_iff lease.lease_id revocation.lease_id);
        same_context = (revocation_context_iff revocation lease).0 (ground (arith, k, s));
      }

  IsAccepted-revocation_rejection :
      IsAccepted rt gate revocation lease now
      → revocation_rejection rt gate revocation lease now ≡ none
  unfolding revocation_rejection revocation_signature_checks revocation_key_checks
      revocation_scope_checks
  IsAccepted-revocation_rejection f =
      let version = (protocol_version_violation-none_iff revocation.base).1 f.version in
      let alg =
        (signature_algorithm_violation-none_iff revocation.base revocation.signature_alg
            "REVOCATION_SIGNATURE_ALGORITHM_MISSING" "REVOCATION_SIGNATURE_ALGORITHM_UNSUPPORTED").1
          (f.algorithm_given, f.algorithm) in
      ground (
        arith,
        version,
        alg,
        f.local_lease,
        f.local_revocation,
        f.trusted,
        f.signed,
        f.small,
        f.key_found,
        f.verified,
        f.scoped,
        (revocation_time_iff gate revocation now).1 f.timely,
        f.same_lease,
        (revocation_context_iff revocation lease).1 f.same_context,
        eq_iff lease.edge_agent_id gate.local_edge_agent_id,
        eq_iff revocation.edge_agent_id gate.local_edge_agent_id,
        eq_iff lease.lease_id revocation.lease_id,
      )

  -- No guard rejects a revocation exactly when it is fresh, from a trusted revoker, signed under its
  -- key, within the revoker's scope, and about the given lease of this edge.
  pub revocation_rejection_iff :
      (revocation_rejection rt gate revocation lease now ≡ none)
      ↔ IsAccepted rt gate revocation lease now
  revocation_rejection_iff = (
    IsAccepted-of (lookup revocation.revoked_by gate.revoker_public_keys_by_id) revocation.signature
        refl refl,
    IsAccepted-revocation_rejection,
  )
