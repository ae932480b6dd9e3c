-- ===== src/Core/Models/Command.antt =====
-- `EdgeCommand` of command_gate.py, and the messages that are signed, as one type.
use rclp.Prelude.{Option, none, String}
use rclp.Core.Value.{Fields}
use rclp.Core.Models.Messages.{
  BaseMessage, AgentAttestation, RobotStateAssertion, ControlPlaneReachabilityAssertion,
  CapabilityRequest, CapabilityLease, LeaseRevocation, FallbackDeclaration, AuditBatchCommit,
}

pub record EdgeCommand : Type 0 where
  pub base : BaseMessage
  pub open base use *
  pub command_id : String
  pub agent_id : String
  pub authenticated_agent_id : Option String
  pub edge_agent_id : String
  pub robot_id : String
  pub mission_id : String
  pub capability : String
  pub command_nonce : String
  pub payload : Fields
  pub signature_alg : String
  pub signature : Option String

pub data Message : Type 0 where
  attestation_message : AgentAttestation → Message
  state_message : RobotStateAssertion → Message
  plane_message : ControlPlaneReachabilityAssertion → Message
  request_message : CapabilityRequest → Message
  lease_message : CapabilityLease → Message
  revocation_message : LeaseRevocation → Message
  fallback_message : FallbackDeclaration → Message
  command_message : EdgeCommand → Message
  batch_message : AuditBatchCommit → Message

-- `exclude={"signature"}`: what is signed does not depend on the signature.
unfoldable pub unsigned : Message → Message
unsigned (attestation_message m) = attestation_message (record m { signature = none })
unsigned (state_message m) = state_message (record m { signature = none })
unsigned (plane_message m) = plane_message (record m { signature = none })
unsigned (request_message m) = request_message (record m { signature = none })
unsigned (lease_message m) = lease_message (record m { signature = none })
unsigned (revocation_message m) = revocation_message (record m { signature = none })
unsigned (fallback_message m) = fallback_message (record m { signature = none })
unsigned (command_message m) = command_message (record m { signature = none })
unsigned (batch_message m) = batch_message (record m { signature = none })
