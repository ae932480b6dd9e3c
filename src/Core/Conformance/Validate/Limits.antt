-- ===== src/Core/Conformance/Validate/Limits.antt =====
-- What an accepted command is held to: the bounds of the local policy, through the lease.
use rclp.Prelude.{◌≡◌, subst, true, false, Option, some, String, List, lookup, Bool-cases, inl, inr}
use rclp.Core.Float.{Float, float_lt, isfinite, float_lt_trans}
use rclp.Core.Value.{Fields}
use rclp.Core.Time.{Instant}
use rclp.Core.Models.{
  CapabilityLease, RobotStateAssertion, NetworkState, CapabilityConstraintRequirement,
  CapabilityConstraintBounds, capability_text,
}
use rclp.Core.Runtime.{Runtime}
use rclp.Core.Leases.Bounded.{IsBounded}
use rclp.Core.Leases.Spec.{IsComplete, MeetsRequirement, MeetsBounds}
use rclp.Core.Conformance.{returns, wellformed_limits}
use rclp.Core.Conformance.Payload.{AsksAtMost, payload_accepted}
use rclp.Core.Conformance.Validate.{Config, Use, validate_lease_for_command}
use rclp.Core.Conformance.Validate.Sound.{validate_iff}

-- Not above `c`, which is not above `b`, is not above `b`.
not_above_trans :
    (b c x : Float)
    → isfinite c ≡ true
    → float_lt b c ≡ false
    → float_lt c x ≡ false
    → float_lt b x ≡ false
not_above_trans b c x fin p q = elim (Bool-cases (float_lt b x)) [
  | inl h ↦ cc (float_lt_trans b x c h q fin, p)
  | inr h ↦ h
]

-- The local policy for a capability: what it requires of a lease, and the bounds on it.
pub record HasPolicy (config : Config) (capability : String)
    (requirement : CapabilityConstraintRequirement) (bounds : CapabilityConstraintBounds)
    : Type 0 where
  pub requirements : List (String × CapabilityConstraintRequirement)
  pub all_bounds : List (String × CapabilityConstraintBounds)
  pub required : config.capability_constraint_requirements ≡ some requirements
  pub requirement_found : lookup capability requirements ≡ some requirement
  pub bounded : config.capability_constraint_bounds ≡ some all_bounds
  pub bounds_found : lookup capability all_bounds ≡ some bounds

module _ {config : Config} {lease : CapabilityLease} {requirement : CapabilityConstraintRequirement}
    {bounds : CapabilityConstraintBounds}
    (policy : HasPolicy config (capability_text lease.capability) requirement bounds) where
  IsComplete-of :
      MeetsRequirement lease config.capability_constraint_requirements
      → IsComplete lease.constraints requirement
  IsComplete-of m =
      let same : m.requirement ≡ requirement =
        cc (m.given, m.found, policy.required, policy.requirement_found) in
      subst (λ r. IsComplete lease.constraints r) same m.complete

  IsBounded-of :
      MeetsBounds lease config.capability_constraint_bounds → IsBounded lease.constraints bounds
  IsBounded-of m =
      let same : m.bounds ≡ bounds = cc (m.given, m.found, policy.bounded, policy.bounds_found) in
      subst (λ b. IsBounded lease.constraints b) same m.within

-- A value that is not above the lease's limit is not above the policy's bound on that limit.
under_bound :
    (o b : Option Float) (x limit : Float)
    → (y : Float) × (o ≡ some y)
    → ((y : Float) → o ≡ some y → (z : Float) × (b ≡ some z) × (float_lt z y ≡ false))
    → ((y : Float) → o ≡ some y → isfinite y ≡ true)
    → ((y : Float) → o ≡ some y → float_lt y x ≡ false)
    → b ≡ some limit
    → float_lt limit x ≡ false
under_bound o b x limit (c, given) bounded fin under e =
    let (z, found, le) = bounded c given in
    let same : z ≡ limit = cc (found, e) in
    not_above_trans limit c x (fin c given) (cc (same, le)) (under c given)

over_bound :
    (o b : Option Float) (x limit : Float)
    → (y : Float) × (o ≡ some y)
    → ((y : Float) → o ≡ some y → (z : Float) × (b ≡ some z) × (float_lt y z ≡ false))
    → ((y : Float) → o ≡ some y → isfinite y ≡ true)
    → ((y : Float) → o ≡ some y → float_lt x y ≡ false)
    → b ≡ some limit
    → float_lt x limit ≡ false
over_bound o b x limit (c, given) bounded fin over e =
    let (z, found, le) = bounded c given in
    let same : z ≡ limit = cc (found, e) in
    not_above_trans x c limit (fin c given) (over c given) (cc (same, le))

-- The network that the policy asks for.
pub record IsWithinPolicy (network : NetworkState) (bounds : CapabilityConstraintBounds)
    : Type 0 where
  pub latency :
      (b : Float) → bounds.max_latency_ms_p95 ≡ some b → float_lt b network.latency_ms_p95 ≡ false
  pub loss :
      (b : Float) → bounds.max_packet_loss_pct ≡ some b → float_lt b network.packet_loss_pct ≡ false
  pub uplink :
      (b : Float) → bounds.min_uplink_mbps ≡ some b → float_lt network.uplink_mbps b ≡ false

-- Where the policy has bounds for the capability and requires network thresholds, a command that comes
-- with a robot state is accepted only if the network of that state is within the bounds of the
-- policy, whatever thresholds the lease names.
pub accepted_network :
    (rt : Runtime) (config : Config) (lease : CapabilityLease) (u : Use)
    (state : RobotStateAssertion) (revoked : List String) (now : Instant)
    {requirement : CapabilityConstraintRequirement} {bounds : CapabilityConstraintBounds}
    → HasPolicy config (capability_text lease.capability) requirement bounds
    → requirement.require_network_thresholds ≡ true
    → validate_lease_for_command rt config (some lease) u (some state) revoked now
      ≡ returns (true, "LEASE_VALID")
    → IsWithinPolicy state.network_state bounds
accepted_network rt config lease u state revoked now {bounds = bounds} policy thresholds accepted =
    let f = (validate_iff rt config lease u (some state) revoked now).0 accepted in
    let limits = wellformed_limits lease.constraints f.granted.wellformed in
    let complete = IsComplete-of policy f.granted.requirement in
    let within = IsBounded-of policy f.granted.bounds in
    record {
      latency = λ b.
          under_bound lease.constraints.max_latency_ms_p95 bounds.max_latency_ms_p95
            state.network_state.latency_ms_p95 b (complete.latency thresholds) within.latency
            limits.latency f.supported.supports.latency;
      loss = λ b.
          under_bound lease.constraints.max_packet_loss_pct bounds.max_packet_loss_pct
            state.network_state.packet_loss_pct b (complete.loss thresholds) within.loss limits.loss
            f.supported.supports.loss;
      uplink = λ b.
          over_bound lease.constraints.min_uplink_mbps bounds.min_uplink_mbps
            state.network_state.uplink_mbps b (complete.uplink thresholds) within.uplink
            limits.uplink f.supported.supports.uplink;
    }

-- Where the policy requires a speed limit and bounds it, an accepted command asks for a speed, as one number
-- if it stands under both of the fields for it, that as a float is finite and from 0 up to the policy's bound.
pub accepted_speed :
    (rt : Runtime) (config : Config) (lease : CapabilityLease) (u : Use) (payload : Fields)
    (state : Option RobotStateAssertion) (revoked : List String) (now : Instant)
    {requirement : CapabilityConstraintRequirement} {bounds : CapabilityConstraintBounds}
    → HasPolicy config (capability_text lease.capability) requirement bounds
    → requirement.require_max_speed_mps ≡ true
    → u.command_payload ≡ some payload
    → validate_lease_for_command rt config (some lease) u state revoked now
      ≡ returns (true, "LEASE_VALID")
    → (limit : Float) → bounds.max_speed_mps ≡ some limit
    → AsksAtMost payload limit
accepted_speed rt config lease u payload state revoked now {bounds = bounds} policy wanted given
      accepted limit e =
    let f = (validate_iff rt config lease u state revoked now).0 accepted in
    let limits = wellformed_limits lease.constraints f.granted.wellformed in
    let speed = (IsComplete-of policy f.granted.requirement).speed wanted in
    let within = IsBounded-of policy f.granted.bounds in
    let passed = rw given at f.payload in
    let asks = (payload_accepted lease payload "LEASE_VALID" passed).0 speed.0 speed.1 in
    let bound = within.speed speed.0 speed.1 in
    let same : bound.0 ≡ limit = cc (bound.1, e) in
    record {
      raw = asks.raw;
      speed = asks.speed;
      asked = asks.asked;
      number = asks.number;
      finite_speed = asks.finite_speed;
      nonnegative = asks.nonnegative;
      under =
          not_above_trans limit speed.0 asks.speed (limits.speed speed.0 speed.1)
            (cc (same, bound.2)) asks.under;
      first = asks.first;
      second = asks.second;
    }
