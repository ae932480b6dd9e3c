-- ===== src/Policy/Narrow.antt =====
-- policy.py: the constraints of a request against those of the policy, and what is granted.
use rclp.Prelude.{
  Bool, true, false, not, ◌&&◌, Option, none, some, String, List, [], ◌∷◌, ◌==◌, contains,
  Violation, reject_if, ◌<|>◌, if◌then◌else◌, ◌++◌,
}
use rclp.Core.Float.{Float, float_lt}
use rclp.Core.Models.{
  LeaseConstraints, CapabilityConstraintBounds, fallback_text, Policy, capability_text,
}

-- `_maximum_constraint_too_broad`
unfoldable pub maximum_constraint_too_broad : Option Float → Option Float → Bool
maximum_constraint_too_broad none allowed = false
maximum_constraint_too_broad (some requested) none = true
maximum_constraint_too_broad (some requested) (some allowed) = float_lt allowed requested

-- `_minimum_constraint_too_broad`
unfoldable pub minimum_constraint_too_broad : Option Float → Option Float → Bool
minimum_constraint_too_broad none allowed = false
minimum_constraint_too_broad (some requested) none = true
minimum_constraint_too_broad (some requested) (some allowed) = float_lt requested allowed

-- `requested.geofence_id is not None and requested.geofence_id != base.geofence_id`
abbrev pub geofence_conflicts : Option String → Option String → Bool
geofence_conflicts none base = false
geofence_conflicts (some requested) none = true
geofence_conflicts (some requested) (some base) = not (requested == base)

-- `_requested_constraint_violation`
unfoldable pub requested_constraint_violation :
    LeaseConstraints → Option LeaseConstraints → Violation
requested_constraint_violation base none = none
requested_constraint_violation base (some requested) =
    reject_if (geofence_conflicts requested.geofence_id base.geofence_id)
      "REQUESTED_GEOFENCE_NOT_ALLOWED"
    <|> reject_if
        (maximum_constraint_too_broad requested.max_latency_ms_p95 base.max_latency_ms_p95)
        "REQUESTED_CONSTRAINTS_TOO_BROAD"
    <|> reject_if
        (maximum_constraint_too_broad requested.max_packet_loss_pct base.max_packet_loss_pct)
        "REQUESTED_CONSTRAINTS_TOO_BROAD"
    <|> reject_if (minimum_constraint_too_broad requested.min_uplink_mbps base.min_uplink_mbps)
        "REQUESTED_CONSTRAINTS_TOO_BROAD"
    <|> reject_if
        (contains "fallback_on_degrade" requested.model_fields_set
          && not (
              fallback_text requested.fallback_on_degrade
              == fallback_text base.fallback_on_degrade))
        "REQUESTED_FALLBACK_CONFLICT"
    <|> reject_if (maximum_constraint_too_broad requested.max_speed_mps base.max_speed_mps)
        "REQUESTED_CONSTRAINTS_TOO_BROAD"

-- `updates.get(name, base)` of an optional field: a requested value that was set replaces the base.
unfoldable pub updated {ℓ} : {A : Type ℓ} → Bool → Option A → Option A → Option A
updated false requested base = base
updated true none base = base
updated true (some requested) base = some requested

-- The names of the fields that are updated.
abbrev updated_name {ℓ} : {A : Type ℓ} → String → Bool → Option A → List String
updated_name name false requested = []
updated_name name true none = []
updated_name name true (some requested) = name ∷ []

-- `_apply_requested_constraints`; `model_copy` adds the updated fields to those that are set.
unfoldable pub apply_requested_constraints :
    LeaseConstraints → Option LeaseConstraints → LeaseConstraints
apply_requested_constraints base none = base
apply_requested_constraints base (some requested) =
    let set = λ (name : String). contains name requested.model_fields_set in
    record {
      geofence_id = updated (set "geofence_id") requested.geofence_id base.geofence_id;
      max_latency_ms_p95 =
          updated (set "max_latency_ms_p95") requested.max_latency_ms_p95 base.max_latency_ms_p95;
      max_packet_loss_pct =
          updated (set "max_packet_loss_pct") requested.max_packet_loss_pct
            base.max_packet_loss_pct;
      min_uplink_mbps =
          updated (set "min_uplink_mbps") requested.min_uplink_mbps base.min_uplink_mbps;
      fallback_on_degrade =
          if set "fallback_on_degrade"
          then requested.fallback_on_degrade
          else base.fallback_on_degrade;
      max_speed_mps = updated (set "max_speed_mps") requested.max_speed_mps base.max_speed_mps;
      model_fields_set =
          updated_name "geofence_id" (set "geofence_id") requested.geofence_id
          ++ updated_name "max_latency_ms_p95" (set "max_latency_ms_p95")
              requested.max_latency_ms_p95
          ++ updated_name "max_packet_loss_pct" (set "max_packet_loss_pct")
              requested.max_packet_loss_pct
          ++ updated_name "min_uplink_mbps" (set "min_uplink_mbps") requested.min_uplink_mbps
          ++ updated_name "fallback_on_degrade" (set "fallback_on_degrade")
              (some requested.fallback_on_degrade)
          ++ updated_name "max_speed_mps" (set "max_speed_mps") requested.max_speed_mps
          ++ base.model_fields_set;
    }

-- `policy_constraint_bounds`
unfoldable pub policy_constraint_bounds : Policy → List (String × CapabilityConstraintBounds)
policy_constraint_bounds policy =
    (
      capability_text policy.capability,
      record {
        capability = policy.capability;
        geofence_id =
            if policy.requirements.geofence_required then policy.requirements.geofence_id else none;
        max_latency_ms_p95 = some policy.requirements.network.max_latency_ms_p95;
        max_packet_loss_pct = some policy.requirements.network.max_packet_loss_pct;
        min_uplink_mbps = some policy.requirements.network.min_uplink_mbps;
        fallback_on_degrade = some policy.fallback.on_network_degrade;
        max_speed_mps = policy.requirements.max_speed_mps;
      },
    )
    ∷ []
