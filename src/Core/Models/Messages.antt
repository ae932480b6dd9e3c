-- ===== src/Core/Models/Messages.antt =====
-- The messages of models.py. `model_fields_set` holds the names of the fields that were given when
-- the message was made; a `message_type` of one literal value is no field here.
use rclp.Prelude.{ℕ, Bool, Option, String, List}
use rclp.Core.Float.{Float}
use rclp.Core.Time.{Timestamp}
use rclp.Core.Value.{Fields}
use rclp.Core.Models.Enums.{
  AuditEventType, Capability, FallbackAction, SafetyState, NetworkProfile, ControlPlaneReachability,
  AgentKind, TrustTier,
}

pub record BaseMessage : Type 0 where
  pub protocol_version : String
  pub message_id : String
  pub correlation_id : String
  pub created_at : Timestamp
  pub model_fields_set : List String

pub record AgentAttestation : Type 0 where
  pub base : BaseMessage
  pub open base use *
  pub agent_id : String
  pub authenticated_agent_id : Option String
  pub kind : AgentKind
  pub manifest_digest : String
  pub public_key_id : String
  pub trust_tier : TrustTier
  pub revoked : Bool
  pub signature_alg : String
  pub signature : Option String

pub record NetworkState : Type 0 where
  pub profile : NetworkProfile
  pub attached : Bool
  pub latency_ms_p95 : Float
  pub packet_loss_pct : Float
  pub uplink_mbps : Float
  pub observed_at : Timestamp
  pub model_fields_set : List String

pub record GeofenceState : Type 0 where
  pub geofence_id : String
  pub inside : Bool
  pub verified_at : Timestamp

pub record RobotStateAssertion : Type 0 where
  pub base : BaseMessage
  pub open base use *
  pub robot_id : String
  pub edge_agent_id : String
  pub authenticated_edge_agent_id : Option String
  pub mission_id : String
  pub safety_state : SafetyState
  pub network_state : NetworkState
  pub geofence_state : GeofenceState
  pub observed_at : Timestamp
  pub human_operator_available : Bool
  pub signature_alg : String
  pub signature : Option String

pub record ControlPlaneReachabilityAssertion : Type 0 where
  pub base : BaseMessage
  pub open base use *
  pub edge_agent_id : String
  pub authenticated_edge_agent_id : Option String
  pub robot_id : String
  pub mission_id : String
  pub reachability : ControlPlaneReachability
  pub reachable : Bool
  pub observed_at : Timestamp
  pub measurement_window_seconds : ℕ
  pub source : String
  pub signature_alg : String
  pub signature : Option String

pub record LeaseConstraints : Type 0 where
  pub geofence_id : Option String
  pub max_latency_ms_p95 : Option Float
  pub max_packet_loss_pct : Option Float
  pub min_uplink_mbps : Option Float
  pub fallback_on_degrade : FallbackAction
  pub max_speed_mps : Option Float
  pub model_fields_set : List String

pub record CapabilityRequest : Type 0 where
  pub base : BaseMessage
  pub open base use *
  pub requesting_agent_id : String
  pub authenticated_agent_id : Option String
  pub edge_agent_id : String
  pub robot_id : String
  pub mission_id : String
  pub capability : Capability
  pub reason : String
  pub requested_duration_seconds : ℕ
  pub requested_constraints : Option LeaseConstraints
  pub request_nonce : String
  pub signature_alg : String
  pub signature : Option String

pub record CapabilityConstraintRequirement : Type 0 where
  pub capability : Capability
  pub require_geofence_id : Bool
  pub require_network_thresholds : Bool
  pub require_fallback_on_degrade : Bool
  pub require_max_speed_mps : Bool

pub record CapabilityConstraintBounds : Type 0 where
  pub capability : Capability
  pub geofence_id : Option String
  pub max_latency_ms_p95 : Option Float
  pub max_packet_loss_pct : Option Float
  pub min_uplink_mbps : Option Float
  pub fallback_on_degrade : Option FallbackAction
  pub max_speed_mps : Option Float

pub record CapabilityLease : Type 0 where
  pub base : BaseMessage
  pub open base use *
  pub lease_id : String
  pub issuer_id : String
  pub agent_id : String
  pub edge_agent_id : String
  pub robot_id : String
  pub mission_id : String
  pub capability : Capability
  pub constraints : LeaseConstraints
  pub issued_at : Timestamp
  pub expires_at : Timestamp
  pub nonce : String
  pub policy_id : String
  pub policy_digest : String
  pub signature_alg : String
  pub signature : Option String

pub record LeaseRevocation : Type 0 where
  pub base : BaseMessage
  pub open base use *
  pub lease_id : String
  pub revoked_by : String
  pub edge_agent_id : String
  pub reason_code : String
  pub revoked_at : Timestamp
  pub fallback_action : FallbackAction
  pub robot_id : Option String
  pub mission_id : Option String
  pub capability : Option Capability
  pub signature_alg : String
  pub signature : Option String

pub record FallbackDeclaration : Type 0 where
  pub base : BaseMessage
  pub open base use *
  pub robot_id : String
  pub edge_agent_id : String
  pub mission_id : String
  pub trigger : String
  pub fallback_action : FallbackAction
  pub declared_by : String
  pub authenticated_declared_by : Option String
  pub lease_id : Option String
  pub decision_id : Option String
  pub revocation_id : Option String
  pub signature_alg : String
  pub signature : Option String

pub record AuditCommit : Type 0 where
  pub base : BaseMessage
  pub open base use *
  pub audit_id : String
  pub event_type : AuditEventType
  pub actor_id : String
  pub robot_id : Option String
  pub mission_id : Option String
  pub summary : String
  pub payload : Fields
  pub payload_hash : Option String
  pub authority_relevant : Bool
  pub integrity_profile : String
  pub integrity_proof : Option String
  pub previous_audit_hash : Option String
  pub policy_id : Option String
  pub policy_digest : Option String
  pub state_refs : List String
  pub related_message_ids : List String

pub record AuditBatchCommit : Type 0 where
  pub base : BaseMessage
  pub open base use *
  pub batch_id : String
  pub audit_ids : List String
  pub event_count : ℕ
  pub chain_head : String
  pub batch_hash : String
  pub signed_by : String
  pub authenticated_signed_by : Option String
  pub signature_alg : String
  pub signature : Option String
