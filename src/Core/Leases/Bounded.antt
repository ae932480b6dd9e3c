-- ===== src/Core/Leases/Bounded.antt =====
-- The constraints of a lease under the bounds of the policy, field by field.
use rclp.Prelude.{◌≡◌, refl, sym, ◌↔◌, false, Option, none, some, String, arith, contains, eq_iff}
use rclp.Core.Float.{Float, float_lt}
use rclp.Core.Models.{LeaseConstraints, CapabilityConstraintBounds, fallback_text, FallbackAction}
use rclp.Core.Leases.{
  capability_constraints_exceed_bounds, max_field_exceeds_policy, min_field_exceeds_policy,
  geofence_exceeds_policy, fallback_exceeds_policy,
}

-- A lease that passes is under the bounds, field by field: an absent bound allows no constraint. Without a
-- bound for the fallback, the lease names none of its own; with one, it has that fallback, also by default.
pub record IsBounded (c : LeaseConstraints) (b : CapabilityConstraintBounds) : Type 0 where
  pub geofence : (g : String) → b.geofence_id ≡ some g → c.geofence_id ≡ some g
  pub latency :
      (x : Float)
      → c.max_latency_ms_p95 ≡ some x
      → (y : Float) × (b.max_latency_ms_p95 ≡ some y) × (float_lt y x ≡ false)
  pub loss :
      (x : Float)
      → c.max_packet_loss_pct ≡ some x
      → (y : Float) × (b.max_packet_loss_pct ≡ some y) × (float_lt y x ≡ false)
  pub uplink :
      (x : Float)
      → c.min_uplink_mbps ≡ some x
      → (y : Float) × (b.min_uplink_mbps ≡ some y) × (float_lt x y ≡ false)
  pub speed :
      (x : Float)
      → c.max_speed_mps ≡ some x
      → (y : Float) × (b.max_speed_mps ≡ some y) × (float_lt y x ≡ false)
  pub no_fallback :
      b.fallback_on_degrade ≡ none → contains "fallback_on_degrade" c.model_fields_set ≡ false
  pub fallback :
      (a : FallbackAction)
      → b.fallback_on_degrade ≡ some a
      → fallback_text c.fallback_on_degrade ≡ fallback_text a

-- A limit of the lease needs a bound that it does not pass.
max_field_iff :
    (v b : Option Float)
    → (max_field_exceeds_policy v b ≡ false)
      ↔ ((x : Float) → v ≡ some x → (y : Float) × (b ≡ some y) × (float_lt y x ≡ false))
unfolding max_field_exceeds_policy
max_field_iff none b = (λ h x e. cc e, λ f. refl)
max_field_iff (some v) none = (λ h x e. cc h, λ f. let (y, e, le) = f v refl in cc e)
max_field_iff (some v) (some b) =
    (λ h x e. (b, refl, cc (h, e)), λ f. let (y, e, le) = f v refl in cc (e, le))

min_field_iff :
    (v b : Option Float)
    → (min_field_exceeds_policy v b ≡ false)
      ↔ ((x : Float) → v ≡ some x → (y : Float) × (b ≡ some y) × (float_lt x y ≡ false))
unfolding min_field_exceeds_policy
min_field_iff none b = (λ h x e. cc e, λ f. refl)
min_field_iff (some v) none = (λ h x e. cc h, λ f. let (y, e, le) = f v refl in cc e)
min_field_iff (some v) (some b) =
    (λ h x e. (b, refl, cc (h, e)), λ f. let (y, e, le) = f v refl in cc (e, le))

geofence_iff :
    (v b : Option String)
    → (geofence_exceeds_policy v b ≡ false) ↔ ((g : String) → b ≡ some g → v ≡ some g)
unfolding geofence_exceeds_policy
geofence_iff v none = (λ h g e. cc e, λ f. refl)
geofence_iff none (some b) = (λ h g e. cc h, λ f. cc (f b refl))
geofence_iff (some v) (some b) =
    (λ h g e. ground (arith, eq_iff v b), λ f. let same = f b refl in ground (arith, eq_iff v b))

fallback_iff :
    (c : LeaseConstraints) (b : Option FallbackAction)
    → (fallback_exceeds_policy c b ≡ false) ↔ (
        (b ≡ none → contains "fallback_on_degrade" c.model_fields_set ≡ false)
        × ((a : FallbackAction)
            → b ≡ some a
            → fallback_text c.fallback_on_degrade ≡ fallback_text a))
unfolding fallback_exceeds_policy
fallback_iff c none = (λ h. (λ e. h, λ a e. cc e), λ f. f.0 refl)
fallback_iff c (some b) = (
  λ h. (
    λ e. cc e,
    λ a e.
        let same : b ≡ a = cc e in
        rw (sym same)
          (ground (arith, eq_iff (fallback_text c.fallback_on_degrade) (fallback_text b))),
  ),
  λ f.
      ground
        (arith, (eq_iff (fallback_text c.fallback_on_degrade) (fallback_text b)).1 (f.1 b refl)),
)

-- Constraints do not exceed the bounds exactly when they are under them.
pub capability_constraints_exceed_bounds_iff :
    (c : LeaseConstraints) (b : CapabilityConstraintBounds)
    → (capability_constraints_exceed_bounds c b ≡ false) ↔ IsBounded c b
unfolding capability_constraints_exceed_bounds
capability_constraints_exceed_bounds_iff c b =
    let geofence = geofence_iff c.geofence_id b.geofence_id in
    let latency = max_field_iff c.max_latency_ms_p95 b.max_latency_ms_p95 in
    let loss = max_field_iff c.max_packet_loss_pct b.max_packet_loss_pct in
    let uplink = min_field_iff c.min_uplink_mbps b.min_uplink_mbps in
    let speed = max_field_iff c.max_speed_mps b.max_speed_mps in
    let fallback = fallback_iff c b.fallback_on_degrade in
    (
      λ h.
          let named = fallback.0 (ground arith) in
          record {
            geofence = geofence.0 (ground arith);
            latency = latency.0 (ground arith);
            loss = loss.0 (ground arith);
            uplink = uplink.0 (ground arith);
            speed = speed.0 (ground arith);
            no_fallback = named.0;
            fallback = named.1;
          },
      λ f. ground (
        arith,
        geofence.1 f.geofence,
        latency.1 f.latency,
        loss.1 f.loss,
        uplink.1 f.uplink,
        speed.1 f.speed,
        fallback.1 (f.no_fallback, f.fallback),
      ),
    )
