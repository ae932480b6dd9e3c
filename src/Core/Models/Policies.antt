-- ===== src/Core/Models/Policies.antt =====
-- policy.py: the parts of a policy file. Values are those after validation; the two validators that
-- compare fields are here too.
use rclp.Prelude.{
  ℕ, Bool, true, false, ◌&&◌, Option, none, some, String, List, Violation, reject_if, ◌<|>◌,
  is_blank,
}
use rclp.Core.Float.{Float, float_lt}
use rclp.Core.Models.Enums.{Capability, FallbackAction}

pub record NetworkRequirements : Type 0 where
  pub max_latency_ms_p95 : Float
  pub max_packet_loss_pct : Float
  pub min_uplink_mbps : Float
  pub deny_above_latency_ms_p95 : Float
  pub deny_above_packet_loss_pct : Float
  pub deny_below_uplink_mbps : Float

pub record PolicyRequirements : Type 0 where
  pub allowed_agents : List String
  pub allowed_edge_agents : List String
  pub allowed_robots : List String
  pub allowed_missions : List String
  pub max_speed_mps : Option Float
  pub geofence_required : Bool
  pub geofence_id : Option String
  pub geofence_allowed : Bool
  pub human_operator_available : Bool
  pub control_plane_required : Bool
  pub control_plane_must_be_reachable : Bool
  pub network : NetworkRequirements

pub record FallbackPolicy : Type 0 where
  pub on_deny : FallbackAction
  pub on_network_degrade : FallbackAction
  pub on_disconnect : FallbackAction
  pub on_expiry : FallbackAction

pub record Policy : Type 0 where
  pub policy_id : String
  pub capability : Capability
  pub lease_ttl_seconds : ℕ
  pub requirements : PolicyRequirements
  pub fallback : FallbackPolicy

-- `validate_degrade_window`
unfoldable pub degrade_window_violation : NetworkRequirements → Violation
degrade_window_violation req =
    reject_if (float_lt req.deny_above_latency_ms_p95 req.max_latency_ms_p95)
      "deny latency threshold must be >= degrade latency threshold"
    <|> reject_if (float_lt req.deny_above_packet_loss_pct req.max_packet_loss_pct)
        "deny packet-loss threshold must be >= degrade packet-loss threshold"
    <|> reject_if (float_lt req.min_uplink_mbps req.deny_below_uplink_mbps)
        "deny uplink threshold must be <= degrade uplink threshold"

abbrev blank_if_given : Option String → Bool
blank_if_given none = false
blank_if_given (some text) = is_blank text

abbrev absent : Option String → Bool
absent none = true
absent (some text) = false

-- `validate_geofence_identity`
unfoldable pub geofence_identity_violation : PolicyRequirements → Violation
geofence_identity_violation req =
    reject_if (blank_if_given req.geofence_id) "geofence_id must be non-empty when provided"
    <|> reject_if (req.geofence_required && absent req.geofence_id)
        "geofence_id is required when geofence_required is true"
