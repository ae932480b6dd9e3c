-- ===== src/Core/Conformance/Validate/Sound.antt =====
-- `validate_lease_for_command` as a whole, and what an accepted command is held to.
use rclp.Prelude.{
  ◌≡◌, refl, ◌↔◌, true, false, Option, none, some, String, List, arith, Violation, <|>-none_iff,
  ◌<|>◌,
}
use rclp.Core.Time.{Instant}
use rclp.Core.Models.{
  CapabilityLease, RobotStateAssertion, protocol_version_violation-none_iff,
  supported_protocol_version,
}
use rclp.Core.Runtime.{Runtime}
use rclp.Core.State.{robot_state_required_wire_fields}
use rclp.Core.State.Spec.{IsAuthentic, state_auth_iff, IsCurrent, state_time_iff}
use rclp.Core.Conformance.{
  returns, lease_requires_current_state, validate_command_payload_against_constraints,
}
use rclp.Core.Conformance.Match.{Supports, lease_state_iff}
use rclp.Core.Conformance.Payload.{payload-reason}
use rclp.Core.Conformance.Validate.{
  Config, Use, issuer_violation, grant_violation, state_violation, before_payload,
  validate_lease_for_command,
}
use rclp.Core.Conformance.Validate.Spec.{IsIssued, issuer_iff, IsGranted, grant_iff}

module _ (rt : Runtime) (config : Config) where
  -- An authentic and current state of the supported version that supports the lease.
  pub record IsAttested (lease : CapabilityLease) (state : RobotStateAssertion) (now : Instant)
      : Type 0 where
    pub public_keys : List (String × String)
    pub configured : config.state_public_keys_by_edge_id ≡ some public_keys
    pub authentic : IsAuthentic rt public_keys state robot_state_required_wire_fields
    pub version : state.protocol_version ≡ supported_protocol_version
    pub current : IsCurrent state now config.max_state_age_seconds
    pub supports : Supports lease state

  -- Without a state, only a lease that needs none.
  abbrev pub HasSupport : CapabilityLease → Option RobotStateAssertion → Instant → Type 0
  HasSupport lease none now = lease_requires_current_state lease ≡ false
  HasSupport lease (some state) now = IsAttested lease state now

  IsAttested-of :
      (lease : CapabilityLease) (state : RobotStateAssertion) (now : Instant)
      (keys : Option (List (String × String)))
      → config.state_public_keys_by_edge_id ≡ keys
      → state_violation rt config lease (some state) now ≡ none
      → IsAttested lease state now
  unfolding state_violation
  IsAttested-of lease state now none e h = ground (arith, e)
  IsAttested-of lease state now (some ks) e h = record {
    public_keys = ks;
    configured = e;
    authentic = (state_auth_iff rt ks state robot_state_required_wire_fields).0 (ground (arith, e));
    version = (protocol_version_violation-none_iff state.base).0 (ground (arith, e));
    current = (state_time_iff state now config.max_state_age_seconds).0 (ground (arith, e));
    supports = (lease_state_iff lease state).0 (ground (arith, e));
  }

  support_iff :
      (lease : CapabilityLease) (state : Option RobotStateAssertion) (now : Instant)
      → (state_violation rt config lease state now ≡ none) ↔ HasSupport lease state now
  unfolding state_violation
  support_iff lease none now = (λ h. ground arith, λ f. ground arith)
  support_iff lease (some state) now = (
    λ h. IsAttested-of lease state now config.state_public_keys_by_edge_id refl h,
    λ f. ground (
      arith,
      f.configured,
      (state_auth_iff rt f.public_keys state robot_state_required_wire_fields).1 f.authentic,
      (protocol_version_violation-none_iff state.base).1 f.version,
      (state_time_iff state now config.max_state_age_seconds).1 f.current,
      (lease_state_iff lease state).1 f.supports,
    ),
  )

  -- When a lease authorises a use: issued, granted, supported by the robot's state, and within the
  -- payload that the lease lets through.
  pub record Authorizes (lease : CapabilityLease) (u : Use) (state : Option RobotStateAssertion)
      (revoked : List String) (now : Instant) : Type 0 where
    pub issued : IsIssued rt config lease
    pub granted : IsGranted rt config lease u revoked now
    pub supported : HasSupport lease state now
    pub payload :
        validate_command_payload_against_constraints lease u.command_payload
        ≡ returns (true, "LEASE_VALID")

  no_violation-of :
      (v : Violation) (lease : CapabilityLease) (u : Use)
      → before_payload rt config v lease u ≡ returns (true, "LEASE_VALID")
      → (v ≡ none)
        × (validate_command_payload_against_constraints lease u.command_payload
            ≡ returns (true, "LEASE_VALID"))
  unfolding before_payload
  no_violation-of none lease u h = (refl, h)
  no_violation-of (some r) lease u h = cc

  -- `validate_lease_for_command` accepts a lease exactly when the lease authorises the use.
  pub validate_iff :
      (lease : CapabilityLease) (u : Use) (state : Option RobotStateAssertion)
      (revoked : List String) (now : Instant)
      → (validate_lease_for_command rt config (some lease) u state revoked now
          ≡ returns (true, "LEASE_VALID"))
        ↔ Authorizes lease u state revoked now
  unfolding validate_lease_for_command before_payload
  validate_iff lease u state revoked now = (
    λ h.
        let v = issuer_violation rt config lease in
        let g = grant_violation rt config lease u revoked now in
        let s = state_violation rt config lease state now in
        let (clear, ok) = no_violation-of (v <|> g <|> s) lease u h in
        let (a, rest) = (<|>-none_iff v (g <|> s)).0 clear in
        let (b, c) = (<|>-none_iff g s).0 rest in
        record {
          issued = (issuer_iff rt config lease).0 a;
          granted = (grant_iff rt config lease u revoked now).0 b;
          supported = (support_iff lease state now).0 c;
          payload = ok;
        },
    λ f.
        rw
          (
            (issuer_iff rt config lease).1 f.issued,
            (grant_iff rt config lease u revoked now).1 f.granted,
            (support_iff lease state now).1 f.supported,
          )
          f.payload,
  )

  -- Nothing is accepted for another reason than `LEASE_VALID`.
  pub accepted_reason :
      (lease : CapabilityLease) (u : Use) (state : Option RobotStateAssertion)
      (revoked : List String) (now : Instant) (reason : String)
      → validate_lease_for_command rt config (some lease) u state revoked now
        ≡ returns (true, reason)
      → reason ≡ "LEASE_VALID"
  unfolding validate_lease_for_command before_payload
  accepted_reason lease u state revoked now reason h =
      of_violation
        (issuer_violation rt config lease
          <|> grant_violation rt config lease u revoked now
          <|> state_violation rt config lease state now)
        h
    where
      of_violation :
          (v : Violation)
          → before_payload rt config v lease u ≡ returns (true, reason)
          → reason ≡ "LEASE_VALID"
      of_violation none h = payload-reason lease u.command_payload reason h
      of_violation (some r) h = cc
