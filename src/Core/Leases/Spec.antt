-- ===== src/Core/Leases/Spec.antt =====
-- The time window and the constraints of a lease, described without the order of the checks.
use rclp.Prelude.{
  ℕ, ◌+◌, ◌≤◌, ◌<◌, ◌≡◌, refl, ◌↔◌, true, false, Option, none, some, String, List, arith, contains,
  lookup, eq_iff, is_blank, require,
}
use rclp.Core.Float.{Float}
use rclp.Core.Time.{Instant, Timestamp, naive, aware, utc, seconds, max_wall}
use rclp.Core.Models.{
  CapabilityLease, LeaseConstraints, CapabilityConstraintRequirement, CapabilityConstraintBounds,
  capability_text, fallback_text, FallbackAction, local_autonomy_only,
}
use rclp.Core.Leases.{
  lease_window_violation, lease_timestamps_violation, lease_time_violation,
  capability_constraints_missing, capability_constraint_requirement_violation,
  capability_constraint_bound_violation, requirement_checks, bound_checks,
}
use rclp.Core.Leases.Bounded.{IsBounded, capability_constraints_exceed_bounds_iff}

-- In force at `at`: begun (but for the skew), not over, and neither longer nor older than accepted.
pub record IsInForce (issued_at expires_at : Timestamp) (at : Instant) (max_age max_ttl skew : ℕ)
    : Type 0 where
  pub issued : Instant
  pub expires : Instant
  pub issued_aware : issued_at ≡ aware issued
  pub expires_aware : expires_at ≡ aware expires
  pub in_range : at.wall + seconds skew ≤ max_wall
  pub begun : utc issued ≤ utc at + seconds skew
  pub not_over : utc at < utc expires
  pub nonempty : utc issued < utc expires
  pub ttl : utc expires ≤ utc issued + seconds max_ttl
  pub age : utc at ≤ utc issued + seconds max_age + seconds skew

IsInForce-of_violation :
    (i e : Timestamp) (a : Instant) (max_age max_ttl skew : ℕ)
    → lease_timestamps_violation i e (aware a) max_age max_ttl skew ≡ none
    → IsInForce i e a max_age max_ttl skew
unfolding lease_timestamps_violation lease_window_violation
IsInForce-of_violation (naive n) e a max_age max_ttl skew h = cc
IsInForce-of_violation (aware i) (naive n) a max_age max_ttl skew h = cc
IsInForce-of_violation (aware i) (aware e) a max_age max_ttl skew h = record {
  issued = i;
  expires = e;
  issued_aware = refl;
  expires_aware = refl;
  in_range = ground arith;
  begun = ground arith;
  not_over = ground arith;
  nonempty = ground arith;
  ttl = ground arith;
  age = ground arith;
}

violation-of_IsInForce :
    (i e : Timestamp) (a : Instant) (max_age max_ttl skew : ℕ)
    → IsInForce i e a max_age max_ttl skew
    → lease_timestamps_violation i e (aware a) max_age max_ttl skew ≡ none
unfolding lease_timestamps_violation lease_window_violation
violation-of_IsInForce (naive n) e a max_age max_ttl skew f = cc f.issued_aware
violation-of_IsInForce (aware i) (naive n) a max_age max_ttl skew f = cc f.expires_aware
violation-of_IsInForce (aware i) (aware e) a max_age max_ttl skew f = ground arith

-- The time check passes exactly when the lease is in force.
pub lease_time_iff :
    (lease : CapabilityLease) (at : Instant) (max_age max_ttl skew : ℕ)
    → (lease_time_violation lease (aware at) max_age max_ttl skew ≡ none)
      ↔ IsInForce lease.issued_at lease.expires_at at max_age max_ttl skew
unfolding lease_time_violation
lease_time_iff lease at max_age max_ttl skew = (
  IsInForce-of_violation lease.issued_at lease.expires_at at max_age max_ttl skew,
  violation-of_IsInForce lease.issued_at lease.expires_at at max_age max_ttl skew,
)

-- Every constraint that the requirement asks for is there.
pub record IsComplete (c : LeaseConstraints) (r : CapabilityConstraintRequirement) : Type 0 where
  pub geofence : r.require_geofence_id ≡ true → (g : String) × (c.geofence_id ≡ some g)
  pub latency : r.require_network_thresholds ≡ true → (x : Float) × (c.max_latency_ms_p95 ≡ some x)
  pub loss : r.require_network_thresholds ≡ true → (x : Float) × (c.max_packet_loss_pct ≡ some x)
  pub uplink : r.require_network_thresholds ≡ true → (x : Float) × (c.min_uplink_mbps ≡ some x)
  pub fallback :
      r.require_fallback_on_degrade ≡ true
      → contains "fallback_on_degrade" c.model_fields_set ≡ true
  pub speed : r.require_max_speed_mps ≡ true → (x : Float) × (c.max_speed_mps ≡ some x)

fallback_text_not_blank : (action : FallbackAction) → is_blank (fallback_text action) ≡ false
unfolding is_blank
fallback_text_not_blank local_autonomy_only = refl
fallback_text_not_blank _ = refl

-- No required constraint is missing exactly when all that the requirement asks for are there.
pub capability_constraints_missing_iff :
    (c : LeaseConstraints) (r : CapabilityConstraintRequirement)
    → (capability_constraints_missing c r ≡ false) ↔ IsComplete c r
unfolding capability_constraints_missing
capability_constraints_missing_iff c r = (
  λ h. record {
    geofence = λ p. ground arith;
    latency = λ p. ground arith;
    loss = λ p. ground arith;
    uplink = λ p. ground arith;
    fallback = λ p. ground arith;
    speed = λ p. ground arith;
  },
  λ f. ground (
    arith,
    fallback_text_not_blank c.fallback_on_degrade,
    f.geofence,
    f.latency,
    f.loss,
    f.uplink,
    f.fallback,
    f.speed,
  ),
)

-- What the two look-ups by capability find.
pub record MeetsRequirement (lease : CapabilityLease)
    (all : Option (List (String × CapabilityConstraintRequirement))) : Type 0 where
  pub configured : List (String × CapabilityConstraintRequirement)
  pub given : all ≡ some configured
  pub requirement : CapabilityConstraintRequirement
  pub found : lookup (capability_text lease.capability) configured ≡ some requirement
  pub covers : capability_text requirement.capability ≡ capability_text lease.capability
  pub complete : IsComplete lease.constraints requirement

pub record MeetsBounds (lease : CapabilityLease)
    (all : Option (List (String × CapabilityConstraintBounds))) : Type 0 where
  pub configured : List (String × CapabilityConstraintBounds)
  pub given : all ≡ some configured
  pub bounds : CapabilityConstraintBounds
  pub found : lookup (capability_text lease.capability) configured ≡ some bounds
  pub covers : capability_text bounds.capability ≡ capability_text lease.capability
  pub within : IsBounded lease.constraints bounds

requirement-of :
    (lease : CapabilityLease) (m : List (String × CapabilityConstraintRequirement))
    (o : Option CapabilityConstraintRequirement) (r : String)
    → lookup (capability_text lease.capability) m ≡ o
    → require o r (requirement_checks lease) ≡ none
    → MeetsRequirement lease (some m)
unfolding requirement_checks
requirement-of lease m none r e h = cc
requirement-of lease m (some q) r e h = record {
  configured = m;
  given = refl;
  requirement = q;
  found = e;
  covers = ground (arith, eq_iff (capability_text q.capability) (capability_text lease.capability));
  complete = (capability_constraints_missing_iff lease.constraints q).0 (ground arith);
}

-- The requirement check passes exactly when the lease meets the requirement of its capability.
pub requirement_iff :
    (lease : CapabilityLease) (all : Option (List (String × CapabilityConstraintRequirement)))
    → (capability_constraint_requirement_violation lease all ≡ none) ↔ MeetsRequirement lease all
unfolding capability_constraint_requirement_violation requirement_checks
requirement_iff lease none = (λ h. cc, λ f. cc f.given)
requirement_iff lease (some m) = (
  requirement-of lease m (lookup (capability_text lease.capability) m) _ refl,
  λ f. ground (
    arith,
    f.given,
    f.found,
    f.covers,
    (capability_constraints_missing_iff lease.constraints f.requirement).1 f.complete,
    eq_iff (capability_text f.requirement.capability) (capability_text lease.capability),
  ),
)

bounds-of :
    (lease : CapabilityLease) (m : List (String × CapabilityConstraintBounds))
    (o : Option CapabilityConstraintBounds) (r : String)
    → lookup (capability_text lease.capability) m ≡ o
    → require o r (bound_checks lease) ≡ none
    → MeetsBounds lease (some m)
unfolding bound_checks
bounds-of lease m none r e h = cc
bounds-of lease m (some q) r e h = record {
  configured = m;
  given = refl;
  bounds = q;
  found = e;
  covers = ground (arith, eq_iff (capability_text q.capability) (capability_text lease.capability));
  within = (capability_constraints_exceed_bounds_iff lease.constraints q).0 (ground arith);
}

-- The bound check passes exactly when the lease meets the bounds of its capability.
pub bounds_iff :
    (lease : CapabilityLease) (all : Option (List (String × CapabilityConstraintBounds)))
    → (capability_constraint_bound_violation lease all ≡ none) ↔ MeetsBounds lease all
unfolding capability_constraint_bound_violation bound_checks
bounds_iff lease none = (λ h. cc, λ f. cc f.given)
bounds_iff lease (some m) = (
  bounds-of lease m (lookup (capability_text lease.capability) m) _ refl,
  λ f. ground (
    arith,
    f.given,
    f.found,
    f.covers,
    (capability_constraints_exceed_bounds_iff lease.constraints f.bounds).1 f.within,
    eq_iff (capability_text f.bounds.capability) (capability_text lease.capability),
  ),
)
