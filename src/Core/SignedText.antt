-- ===== src/Core/SignedText.antt =====
-- The texts that each `..._signed_material_too_large` function puts through the budget, in order.
use rclp.Prelude.{Bool, true, false, Option, none, some, String, List, [], ◌∷◌, if◌then◌else◌}
use rclp.Core.Float.{Float}
use rclp.Core.Models.{
  RobotStateAssertion, ControlPlaneReachabilityAssertion, CapabilityLease, LeaseRevocation,
  EdgeCommand, Capability, capability_text, fallback_text, safety_text, profile_text,
  reachability_text,
}
use rclp.Core.Budget.{budget_exceeded, signature_text_too_large}
use rclp.Core.Runtime.{Runtime}

-- `str` of a bool
abbrev pub bool_text : Bool → String
bool_text true = "True"
bool_text false = "False"

module _ (rt : Runtime) where
  open rt use {isoformat, str_int, str_float}

  abbrev pub float_text : Option Float → Option String
  float_text none = none
  float_text (some x) = some (str_float x)

  unfoldable pub lease_texts : CapabilityLease → List (Option String)
  lease_texts lease =
      some lease.protocol_version
      ∷ some lease.message_id
      ∷ some lease.correlation_id
      ∷ some (isoformat lease.created_at)
      ∷ some "capability_lease"
      ∷ some lease.lease_id
      ∷ some lease.issuer_id
      ∷ some lease.agent_id
      ∷ some lease.edge_agent_id
      ∷ some lease.robot_id
      ∷ some lease.mission_id
      ∷ some (capability_text lease.capability)
      ∷ lease.constraints.geofence_id
      ∷ float_text lease.constraints.max_latency_ms_p95
      ∷ float_text lease.constraints.max_packet_loss_pct
      ∷ float_text lease.constraints.min_uplink_mbps
      ∷ some (fallback_text lease.constraints.fallback_on_degrade)
      ∷ float_text lease.constraints.max_speed_mps
      ∷ some (isoformat lease.issued_at)
      ∷ some (isoformat lease.expires_at)
      ∷ some lease.nonce
      ∷ some lease.policy_id
      ∷ some lease.policy_digest
      ∷ some lease.signature_alg
      ∷ lease.signature
      ∷ []

  unfoldable pub lease_signed_material_too_large : CapabilityLease → Bool
  lease_signed_material_too_large lease =
      if signature_text_too_large lease.signature
      then true
      else budget_exceeded 0 (lease_texts lease)

  unfoldable pub robot_state_texts : RobotStateAssertion → List (Option String)
  robot_state_texts state =
      some state.protocol_version
      ∷ some state.message_id
      ∷ some state.correlation_id
      ∷ some (isoformat state.created_at)
      ∷ some "robot_state_assertion"
      ∷ some state.robot_id
      ∷ some state.edge_agent_id
      ∷ state.authenticated_edge_agent_id
      ∷ some state.mission_id
      ∷ some (safety_text state.safety_state)
      ∷ some (profile_text state.network_state.profile)
      ∷ some (bool_text state.network_state.attached)
      ∷ some (str_float state.network_state.latency_ms_p95)
      ∷ some (str_float state.network_state.packet_loss_pct)
      ∷ some (str_float state.network_state.uplink_mbps)
      ∷ some (isoformat state.network_state.observed_at)
      ∷ some state.geofence_state.geofence_id
      ∷ some (bool_text state.geofence_state.inside)
      ∷ some (isoformat state.geofence_state.verified_at)
      ∷ some (isoformat state.observed_at)
      ∷ some (bool_text state.human_operator_available)
      ∷ some state.signature_alg
      ∷ state.signature
      ∷ []

  unfoldable pub robot_state_signed_material_too_large : RobotStateAssertion → Bool
  robot_state_signed_material_too_large state = budget_exceeded 0 (robot_state_texts state)

  unfoldable pub control_plane_texts : ControlPlaneReachabilityAssertion → List (Option String)
  control_plane_texts assertion =
      some assertion.protocol_version
      ∷ some assertion.message_id
      ∷ some assertion.correlation_id
      ∷ some (isoformat assertion.created_at)
      ∷ some "control_plane_reachability_assertion"
      ∷ some assertion.edge_agent_id
      ∷ assertion.authenticated_edge_agent_id
      ∷ some assertion.robot_id
      ∷ some assertion.mission_id
      ∷ some (reachability_text assertion.reachability)
      ∷ some (bool_text assertion.reachable)
      ∷ some (isoformat assertion.observed_at)
      ∷ some (str_int assertion.measurement_window_seconds)
      ∷ some assertion.source
      ∷ some assertion.signature_alg
      ∷ assertion.signature
      ∷ []

  unfoldable pub control_plane_reachability_signed_material_too_large :
      ControlPlaneReachabilityAssertion → Bool
  control_plane_reachability_signed_material_too_large assertion =
      budget_exceeded 0 (control_plane_texts assertion)

  unfoldable pub command_texts : EdgeCommand → List (Option String)
  command_texts command =
      some command.protocol_version
      ∷ some command.message_id
      ∷ some command.correlation_id
      ∷ some "edge_command"
      ∷ some command.command_id
      ∷ some command.agent_id
      ∷ command.authenticated_agent_id
      ∷ some command.edge_agent_id
      ∷ some command.robot_id
      ∷ some command.mission_id
      ∷ some command.capability
      ∷ some command.command_nonce
      ∷ some command.signature_alg
      ∷ command.signature
      ∷ []

  abbrev capability_option_text : Option Capability → Option String
  capability_option_text none = none
  capability_option_text (some c) = some (capability_text c)

  unfoldable pub revocation_texts : LeaseRevocation → List (Option String)
  revocation_texts revocation =
      some revocation.protocol_version
      ∷ some revocation.message_id
      ∷ some revocation.correlation_id
      ∷ some (isoformat revocation.created_at)
      ∷ some "lease_revocation"
      ∷ some revocation.lease_id
      ∷ some revocation.revoked_by
      ∷ some revocation.edge_agent_id
      ∷ some revocation.reason_code
      ∷ some (isoformat revocation.revoked_at)
      ∷ some (fallback_text revocation.fallback_action)
      ∷ revocation.robot_id
      ∷ revocation.mission_id
      ∷ capability_option_text revocation.capability
      ∷ some revocation.signature_alg
      ∷ revocation.signature
      ∷ []

  unfoldable pub signed_revocation_material_budget_violation : LeaseRevocation → Bool
  signed_revocation_material_budget_violation revocation =
      budget_exceeded 0 (revocation_texts revocation)
