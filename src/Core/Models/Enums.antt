-- ===== src/Core/Models/Enums.antt =====
-- The string enumerations of models.py, each with the text of its members, by which they compare.
use rclp.Prelude.{String}

pub data Capability : Type 0 where
  remote_assist mission_continue autonomy_escalation : Capability

abbrev pub capability_text : Capability → String
capability_text remote_assist = "remote_assist"
capability_text mission_continue = "mission_continue"
capability_text autonomy_escalation = "autonomy_escalation"

pub data Decision : Type 0 where
  allow deny degrade : Decision

abbrev pub decision_text : Decision → String
decision_text allow = "allow"
decision_text deny = "deny"
decision_text degrade = "degrade"

pub data FallbackAction : Type 0 where
  local_autonomy_only crawl_to_safe_zone hold_position : FallbackAction
  revoke_remote_assist escalate_to_human : FallbackAction

abbrev pub fallback_text : FallbackAction → String
fallback_text local_autonomy_only = "local_autonomy_only"
fallback_text crawl_to_safe_zone = "crawl_to_safe_zone"
fallback_text hold_position = "hold_position"
fallback_text revoke_remote_assist = "revoke_remote_assist"
fallback_text escalate_to_human = "escalate_to_human"

pub data AuditEventType : Type 0 where
  demo_setup capability_requested network_state_asserted : AuditEventType
  capability_allowed capability_denied capability_degraded : AuditEventType
  command_allowed command_rejected : AuditEventType
  lease_revoked revocation_rejected fallback_declared diagnostic : AuditEventType

abbrev pub event_text : AuditEventType → String
event_text demo_setup = "demo_setup"
event_text capability_requested = "capability_requested"
event_text network_state_asserted = "network_state_asserted"
event_text capability_allowed = "capability_allowed"
event_text capability_denied = "capability_denied"
event_text capability_degraded = "capability_degraded"
event_text command_allowed = "command_allowed"
event_text command_rejected = "command_rejected"
event_text lease_revoked = "lease_revoked"
event_text revocation_rejected = "revocation_rejected"
event_text fallback_declared = "fallback_declared"
event_text diagnostic = "diagnostic"

pub data SafetyState : Type 0 where
  nominal degraded emergency : SafetyState

abbrev pub safety_text : SafetyState → String
safety_text nominal = "nominal"
safety_text degraded = "degraded"
safety_text emergency = "emergency"

pub data NetworkProfile : Type 0 where
  unknown normal degraded_teleop uplink_bad partition : NetworkProfile

abbrev pub profile_text : NetworkProfile → String
profile_text unknown = "unknown"
profile_text normal = "normal"
profile_text degraded_teleop = "degraded_teleop"
profile_text uplink_bad = "uplink_bad"
profile_text partition = "partition"

pub data ControlPlaneReachability : Type 0 where
  unknown_plane reachable_plane degraded_plane partitioned_plane : ControlPlaneReachability

abbrev pub reachability_text : ControlPlaneReachability → String
reachability_text unknown_plane = "unknown"
reachability_text reachable_plane = "reachable"
reachability_text degraded_plane = "degraded"
reachability_text partitioned_plane = "partitioned"

pub data AgentKind : Type 0 where
  central_agent edge_agent human_operator service : AgentKind

abbrev pub kind_text : AgentKind → String
kind_text central_agent = "central_agent"
kind_text edge_agent = "edge_agent"
kind_text human_operator = "human_operator"
kind_text service = "service"

pub data TrustTier : Type 0 where
  development staging production : TrustTier

abbrev pub tier_text : TrustTier → String
tier_text development = "development"
tier_text staging = "staging"
tier_text production = "production"
