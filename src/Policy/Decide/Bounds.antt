-- ===== src/Policy/Decide/Bounds.antt =====
-- What the engine grants stays within the bounds that `policy_constraint_bounds` gives to a gate.
use rclp.Prelude.{
  ◌≡◌, refl, Bool, true, false, Option, none, some, String, ◌==◌, arith, eq_iff, eq_refl, contains,
  lookup, if◌then◌else◌,
}
use rclp.Core.Float.{Float, float_lt}
use rclp.Core.Models.{
  CapabilityLease, LeaseConstraints, CapabilityConstraintBounds, FallbackAction, fallback_text,
  Policy, capability_text, RobotStateAssertion,
}
use rclp.Core.Leases.{
  capability_constraints_exceed_bounds, max_field_exceeds_policy, min_field_exceeds_policy,
  fallback_exceeds_policy, geofence_exceeds_policy, capability_constraint_bound_violation,
  bound_checks,
}
use rclp.Policy.Narrow.{
  maximum_constraint_too_broad, minimum_constraint_too_broad, geofence_conflicts,
  requested_constraint_violation, updated, apply_requested_constraints, policy_constraint_bounds,
}
use rclp.Policy.Decide.{base_constraints}

float_lt_irrefl : (x : Float) → float_lt x x ≡ false
unfolding float_lt
float_lt_irrefl x = ground arith

-- An upper limit that is narrowed from a bound does not exceed it.
max_field-updated :
    (set : Bool) (requested bound : Option Float)
    → maximum_constraint_too_broad requested bound ≡ false
    → max_field_exceeds_policy (updated set requested bound) bound ≡ false
unfolding maximum_constraint_too_broad max_field_exceeds_policy updated
max_field-updated set requested none h = ground arith
max_field-updated set requested (some b) h = ground (arith, float_lt_irrefl b)

min_field-updated :
    (set : Bool) (requested bound : Option Float)
    → minimum_constraint_too_broad requested bound ≡ false
    → min_field_exceeds_policy (updated set requested bound) bound ≡ false
unfolding minimum_constraint_too_broad min_field_exceeds_policy updated
min_field-updated set requested none h = ground arith
min_field-updated set requested (some b) h = ground (arith, float_lt_irrefl b)

-- A geofence that was the bound stays the bound.
geofence-updated :
    (set : Bool) (requested : Option String) (place : String) (bound : Option String)
    → geofence_conflicts requested (some place) ≡ false
    → geofence_exceeds_policy (some place) bound ≡ false
    → geofence_exceeds_policy (updated set requested (some place)) bound ≡ false
unfolding geofence_exceeds_policy updated
geofence-updated set none place bound h k = ground arith
geofence-updated set (some r) place none h k = ground arith
geofence-updated set (some r) place (some b) h k =
    ground (arith, eq_iff r place, eq_iff place b, eq_iff r b)

fallback-updated :
    (c : LeaseConstraints) (set : Bool) (requested bound : FallbackAction)
    → (set ≡ true → (fallback_text requested == fallback_text bound) ≡ true)
    → c.fallback_on_degrade ≡ (if set then requested else bound)
    → fallback_exceeds_policy c (some bound) ≡ false
unfolding fallback_exceeds_policy
fallback-updated c true requested bound h e = rw e (ground (arith, h refl))
fallback-updated c false requested bound h e = rw e (ground (arith, eq_refl (fallback_text bound)))

within-of :
    (c : LeaseConstraints) (b : CapabilityConstraintBounds)
    → geofence_exceeds_policy c.geofence_id b.geofence_id ≡ false
    → max_field_exceeds_policy c.max_latency_ms_p95 b.max_latency_ms_p95 ≡ false
    → max_field_exceeds_policy c.max_packet_loss_pct b.max_packet_loss_pct ≡ false
    → min_field_exceeds_policy c.min_uplink_mbps b.min_uplink_mbps ≡ false
    → max_field_exceeds_policy c.max_speed_mps b.max_speed_mps ≡ false
    → fallback_exceeds_policy c b.fallback_on_degrade ≡ false
    → capability_constraints_exceed_bounds c b ≡ false
unfolding capability_constraints_exceed_bounds
within-of c b g l p u s f = rw (g, l, p, u, s, f) refl

-- The bounds of a policy.
abbrev pub bounds_of : Policy → CapabilityConstraintBounds
bounds_of policy = record {
  capability = policy.capability;
  geofence_id =
      if policy.requirements.geofence_required then policy.requirements.geofence_id else none;
  max_latency_ms_p95 = some policy.requirements.network.max_latency_ms_p95;
  max_packet_loss_pct = some policy.requirements.network.max_packet_loss_pct;
  min_uplink_mbps = some policy.requirements.network.min_uplink_mbps;
  fallback_on_degrade = some policy.fallback.on_network_degrade;
  max_speed_mps = policy.requirements.max_speed_mps;
}

module _ (policy : Policy) (state : RobotStateAssertion)
    (fenced : geofence_exceeds_policy
        (some state.geofence_state.geofence_id)
        (bounds_of policy).geofence_id
      ≡ false) where
  -- Constraints of the policy, narrowed as a request may narrow them, exceed no bound of the policy.
  pub narrowed_within :
      (requested : Option LeaseConstraints)
      → requested_constraint_violation (base_constraints state policy) requested ≡ none
      → capability_constraints_exceed_bounds
          (apply_requested_constraints (base_constraints state policy) requested)
          (bounds_of policy)
        ≡ false
  unfolding requested_constraint_violation apply_requested_constraints base_constraints
      maximum_constraint_too_broad updated minimum_constraint_too_broad
  narrowed_within none h =
      within-of (base_constraints state policy) (bounds_of policy) fenced
        (max_field-updated false none (some policy.requirements.network.max_latency_ms_p95) refl)
        (max_field-updated false none (some policy.requirements.network.max_packet_loss_pct) refl)
        (min_field-updated false none (some policy.requirements.network.min_uplink_mbps) refl)
        (max_field-updated false none policy.requirements.max_speed_mps refl)
        (fallback-updated (base_constraints state policy) false policy.fallback.on_network_degrade
          policy.fallback.on_network_degrade (λ e. cc e) refl)
  narrowed_within (some r) h =
      let set = λ (name : String). contains name r.model_fields_set in
      within-of (apply_requested_constraints (base_constraints state policy) (some r))
        (bounds_of policy)
        (geofence-updated (set "geofence_id") r.geofence_id state.geofence_state.geofence_id
          (bounds_of policy).geofence_id (ground arith) fenced)
        (max_field-updated (set "max_latency_ms_p95") r.max_latency_ms_p95
          (some policy.requirements.network.max_latency_ms_p95) (ground arith))
        (max_field-updated (set "max_packet_loss_pct") r.max_packet_loss_pct
          (some policy.requirements.network.max_packet_loss_pct) (ground arith))
        (min_field-updated (set "min_uplink_mbps") r.min_uplink_mbps
          (some policy.requirements.network.min_uplink_mbps) (ground arith))
        (max_field-updated (set "max_speed_mps") r.max_speed_mps policy.requirements.max_speed_mps
          (ground arith))
        (fallback-updated (apply_requested_constraints (base_constraints state policy) (some r))
          (set "fallback_on_degrade") r.fallback_on_degrade policy.fallback.on_network_degrade
          (λ e. ground (arith, e)) refl)

-- A lease for the capability of a policy whose constraints are within the bounds of that policy passes
-- the bounds check of a gate that is configured with `policy_constraint_bounds`.
pub policy_bounds_pass :
    (policy : Policy) (lease : CapabilityLease)
    → lease.capability ≡ policy.capability
    → capability_constraints_exceed_bounds lease.constraints (bounds_of policy) ≡ false
    → capability_constraint_bound_violation lease (some (policy_constraint_bounds policy)) ≡ none
unfolding capability_constraint_bound_violation bound_checks policy_constraint_bounds lookup
policy_bounds_pass policy lease same within =
    rw same (ground (arith, eq_refl (capability_text policy.capability), within))
