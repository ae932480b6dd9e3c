-- ===== src/Core/Conformance/Validate/Spec.antt =====
-- `validate_lease_for_command` against one description of when a lease authorises a use.
use rclp.Prelude.{
  ◌≡◌, refl, ◌↔◌, true, false, Option, none, some, String, List, arith, eq_iff, contains, lookup,
  require,
}
use rclp.Core.Time.{Instant}
use rclp.Core.Models.{
  CapabilityLease, capability_text, supported_protocol_version, ed25519_signature_algorithm,
  protocol_version_violation-none_iff, signature_algorithm_violation-none_iff,
}
use rclp.Core.Runtime.{Runtime}
use rclp.Core.SignedText.{lease_signed_material_too_large}
use rclp.Core.Leases.{
  lease_matches_context, lease_signature_algorithm_violation, verify_lease_signature,
}
use rclp.Core.Leases.Spec.{
  IsInForce, lease_time_iff, MeetsRequirement, requirement_iff, MeetsBounds, bounds_iff,
}
use rclp.Core.Conformance.{lease_clock_skew_seconds, lease_constraints_malformed}
use rclp.Core.Conformance.Match.{
  IsInScope, capability_scope_iff, HasProvenance, policy_provenance_iff,
}
use rclp.Core.Conformance.Validate.{
  Config, Use, signature_checks, issuer_keys, issuer_violation, grant_violation,
}

module _ (rt : Runtime) (config : Config) where
  -- Signed by a trusted issuer, under its configured key.
  pub record IsIssued (lease : CapabilityLease) : Type 0 where
    pub public_key : String
    pub version : lease.protocol_version ≡ supported_protocol_version
    pub trusted : contains lease.issuer_id config.trusted_issuer_ids ≡ true
    pub key : lookup lease.issuer_id (issuer_keys rt config) ≡ some public_key
    pub algorithm_given : contains "signature_alg" lease.model_fields_set ≡ true
    pub algorithm : lease.signature_alg ≡ ed25519_signature_algorithm
    pub small : lease_signed_material_too_large rt lease ≡ false
    pub verified : verify_lease_signature rt lease public_key ≡ true

  IsIssued-of :
      (lease : CapabilityLease) (key : Option String)
      → lookup lease.issuer_id (issuer_keys rt config) ≡ key
      → lease.protocol_version ≡ supported_protocol_version
      → contains lease.issuer_id config.trusted_issuer_ids ≡ true
      → require key "ISSUER_KEY_NOT_TRUSTED" (signature_checks rt config lease) ≡ none
      → IsIssued lease
  unfolding signature_checks lease_signature_algorithm_violation
  IsIssued-of lease none e v t h = cc
  IsIssued-of lease (some k) e v t h =
      let alg =
        (signature_algorithm_violation-none_iff lease.base lease.signature_alg
            "LEASE_SIGNATURE_ALGORITHM_MISSING" "LEASE_SIGNATURE_ALGORITHM_UNSUPPORTED").0
          (ground arith) in
      record {
        public_key = k;
        version = v;
        trusted = t;
        key = e;
        algorithm_given = alg.0;
        algorithm = alg.1;
        small = ground arith;
        verified = ground arith;
      }

  -- The issuer checks pass exactly for an issued lease.
  pub issuer_iff :
      (lease : CapabilityLease) → (issuer_violation rt config lease ≡ none) ↔ IsIssued lease
  unfolding issuer_violation signature_checks lease_signature_algorithm_violation
  issuer_iff lease = (
    λ h.
        IsIssued-of lease (lookup lease.issuer_id (issuer_keys rt config)) refl
          ((protocol_version_violation-none_iff lease.base).0 (ground arith)) (ground arith)
          (ground arith),
    λ f. ground (
      arith,
      (protocol_version_violation-none_iff lease.base).1 f.version,
      f.trusted,
      f.key,
      (signature_algorithm_violation-none_iff lease.base lease.signature_alg
            "LEASE_SIGNATURE_ALGORITHM_MISSING" "LEASE_SIGNATURE_ALGORITHM_UNSUPPORTED").1
          (f.algorithm_given, f.algorithm),
      f.small,
      f.verified,
    ),
  )

  -- The use is the one that the lease names.
  pub record IsFor (lease : CapabilityLease) (u : Use) : Type 0 where
    pub agent : lease.agent_id ≡ u.agent_id
    pub edge : lease.edge_agent_id ≡ u.edge_agent_id
    pub robot : lease.robot_id ≡ u.robot_id
    pub mission : lease.mission_id ≡ u.mission_id
    pub capability : capability_text lease.capability ≡ u.capability

  context_iff :
      (lease : CapabilityLease) (u : Use)
      → (lease_matches_context lease u.agent_id u.edge_agent_id u.robot_id u.mission_id u.capability
          ≡ true)
        ↔ IsFor lease u
  unfolding lease_matches_context
  context_iff lease u = (
    λ h. record {
      agent = ground (arith, eq_iff lease.agent_id u.agent_id);
      edge = ground (arith, eq_iff lease.edge_agent_id u.edge_agent_id);
      robot = ground (arith, eq_iff lease.robot_id u.robot_id);
      mission = ground (arith, eq_iff lease.mission_id u.mission_id);
      capability = ground (arith, eq_iff (capability_text lease.capability) u.capability);
    },
    λ f. ground (
      arith,
      eq_iff lease.agent_id u.agent_id,
      eq_iff lease.edge_agent_id u.edge_agent_id,
      eq_iff lease.robot_id u.robot_id,
      eq_iff lease.mission_id u.mission_id,
      eq_iff (capability_text lease.capability) u.capability,
      f.agent,
      f.edge,
      f.robot,
      f.mission,
      f.capability,
    ),
  )

  -- Granted under the accepted policy, for this use, now, within the local limits, and not revoked.
  pub record IsGranted (lease : CapabilityLease) (u : Use) (revoked : List String) (now : Instant)
      : Type 0 where
    pub provenance : HasProvenance lease config.accepted_policy_id config.accepted_policy_digests
    pub scope : IsInScope lease config.accepted_capabilities config.issuer_capability_scopes
    pub in_force :
        IsInForce lease.issued_at lease.expires_at now config.max_lease_age_seconds
          config.max_lease_ttl_seconds lease_clock_skew_seconds
    pub requirement : MeetsRequirement lease config.capability_constraint_requirements
    pub wellformed : lease_constraints_malformed lease.constraints ≡ false
    pub bounds : MeetsBounds lease config.capability_constraint_bounds
    pub context : IsFor lease u
    pub not_revoked : contains lease.lease_id revoked ≡ false

  -- The grant checks pass exactly for a granted lease.
  pub grant_iff :
      (lease : CapabilityLease) (u : Use) (revoked : List String) (now : Instant)
      → (grant_violation rt config lease u revoked now ≡ none) ↔ IsGranted lease u revoked now
  unfolding grant_violation
  grant_iff lease u revoked now = (
    λ h. record {
      provenance =
          (policy_provenance_iff lease config.accepted_policy_id config.accepted_policy_digests).0
            (ground arith);
      scope =
          (capability_scope_iff lease config.accepted_capabilities
              config.issuer_capability_scopes).0
            (ground arith);
      in_force =
          (lease_time_iff lease now config.max_lease_age_seconds config.max_lease_ttl_seconds
              lease_clock_skew_seconds).0
            (ground arith);
      requirement =
          (requirement_iff lease config.capability_constraint_requirements).0 (ground arith);
      wellformed = ground arith;
      bounds = (bounds_iff lease config.capability_constraint_bounds).0 (ground arith);
      context = (context_iff lease u).0 (ground arith);
      not_revoked = ground arith;
    },
    λ f. ground (
      arith,
      (policy_provenance_iff lease config.accepted_policy_id config.accepted_policy_digests).1
          f.provenance,
      (capability_scope_iff lease config.accepted_capabilities config.issuer_capability_scopes).1
          f.scope,
      (lease_time_iff lease now config.max_lease_age_seconds config.max_lease_ttl_seconds
            lease_clock_skew_seconds).1
          f.in_force,
      (requirement_iff lease config.capability_constraint_requirements).1 f.requirement,
      f.wellformed,
      (bounds_iff lease config.capability_constraint_bounds).1 f.bounds,
      (context_iff lease u).1 f.context,
      f.not_revoked,
    ),
  )
