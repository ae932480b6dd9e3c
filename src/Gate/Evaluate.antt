-- ===== src/Gate/Evaluate.antt =====
-- command_gate.py: `CommandGate.evaluate`. Without `now` the call reads the clock twice, for the
-- command and for the lease; both readings are arguments here, and `now` gives the same for both.
pub mod Frame
pub mod Safety
use rclp.Prelude.{
  Bool, true, false, not, ◌||◌, Option, none, some, String, List, [], ◌∷◌, ◌==◌, keys, format,
  if◌then◌else◌, Verdict,
}
use rclp.Core.Value.{Value, str, Fields, end, field}
use rclp.Core.Time.{Instant}
use rclp.Core.Models.{
  CapabilityLease, RobotStateAssertion, EdgeCommand, command_allowed, state_message,
}
use rclp.Core.Runtime.{Runtime}
use rclp.Core.Conformance.{Outcome, returns, raises}
use rclp.Core.Conformance.Validate.{Use, validate_lease_for_command}
use rclp.Gate.Replay.{ReplayCache, remember, remember_authorized_use, contains_command}
use rclp.Gate.State.{
  Gate, GateState, GateResult, AuditEntry, option_text, record_audit, newest_audit_id,
}
use rclp.Gate.Auth.{command_auth_violation}
use rclp.Gate.Denials.{command_correlation_id}
use rclp.Gate.Reject.{reject_command, reject_local_edge_mismatch}

-- `_local_edge_context_mismatch`
unfoldable pub local_edge_context_mismatch : Gate → EdgeCommand → Option CapabilityLease → Bool
local_edge_context_mismatch gate command none =
    not (command.edge_agent_id == gate.local_edge_agent_id)
local_edge_context_mismatch gate command (some lease) =
    not (command.edge_agent_id == gate.local_edge_agent_id)
    || not (lease.edge_agent_id == gate.local_edge_agent_id)

abbrev pub use_of_command : EdgeCommand → Use
use_of_command command = record {
  agent_id = command.agent_id;
  edge_agent_id = command.edge_agent_id;
  robot_id = command.robot_id;
  mission_id = command.mission_id;
  capability = command.capability;
  command_payload = some command.payload;
}

module _ (rt : Runtime) (gate : Gate) where
  unfoldable pub allowed_payload : EdgeCommand → CapabilityLease → String → Fields → Fields
  allowed_payload command lease reason rest = field "command_id" (str command.command_id) (
      field "command_message_id" (str command.message_id) (
        field "agent_id" (str command.agent_id) (
          field "authenticated_agent_id" (option_text command.authenticated_agent_id) (
            field "edge_agent_id" (str command.edge_agent_id) (
              field "robot_id" (str command.robot_id) (
                field "mission_id" (str command.mission_id) (
                  field "capability" (str command.capability) (
                    field "command_nonce" (str command.command_nonce) (
                      field "lease_id" (str lease.lease_id) (
                        field "lease_nonce" (str lease.nonce)
                          (field "reason_code" (str reason) rest)))))))))))

  unfoldable pub allowed_refs : Option RobotStateAssertion → List String × Fields
  allowed_refs none = ([], end)
  allowed_refs (some state) =
      (state.message_id ∷ [], field "current_state" (rt.model_dump (state_message state)) end)

  unfoldable pub allowed_entry :
      EdgeCommand → CapabilityLease → Option RobotStateAssertion → String → AuditEntry
  allowed_entry command lease current_state reason =
      let (refs, rest) = allowed_refs current_state in
      record {
        event_type = command_allowed;
        actor_id = command.edge_agent_id;
        robot_id = some command.robot_id;
        mission_id = some command.mission_id;
        correlation_id = command_correlation_id command none;
        summary = format ("command " ∷ command.command_id ∷ " allowed: " ∷ reason ∷ []);
        payload = allowed_payload command lease reason rest;
        authority_relevant = true;
        state_refs = refs;
        related_message_ids = command.message_id ∷ refs;
      }

  -- `if ok:` the use is recorded, and only then is the command allowed.
  unfoldable pub allow_if_recorded :
      GateState
      → EdgeCommand
      → CapabilityLease
      → Option RobotStateAssertion
      → String
      → ReplayCache × (Bool × String)
      → GateState × GateResult
  allow_if_recorded g command lease current_state reason (replay, (false, replay_reason)) =
      reject_command rt gate (record g { replay = replay }) command (some lease) current_state
        replay_reason false true
  allow_if_recorded g command lease current_state reason (replay, (true, replay_reason)) =
      let audited =
        record_audit (allowed_entry command lease current_state reason)
          (record g { replay = replay }) in
      (
        audited,
        record {
          allowed = true;
          reason_code = reason;
          audit_id = some (newest_audit_id rt audited);
          fallback_action = none;
          fallback_declaration = none;
        },
      )

  -- A lease that fails uses up the command all the same.
  unfoldable pub refuse_and_remember :
      GateState
      → EdgeCommand
      → CapabilityLease
      → Option RobotStateAssertion
      → String
      → ReplayCache × Bool
      → GateState × GateResult
  refuse_and_remember g command lease current_state reason (replay, false) =
      reject_command rt gate (record g { replay = replay }) command (some lease) current_state
        "COMMAND_REPLAYED" false true
  refuse_and_remember g command lease current_state reason (replay, true) =
      reject_command rt gate (record g { replay = replay }) command (some lease) current_state
        reason true true

  unfoldable pub by_verdict :
      GateState
      → EdgeCommand
      → CapabilityLease
      → Option RobotStateAssertion
      → Outcome Verdict
      → GateState × Outcome GateResult
  by_verdict g command lease current_state (raises exception) = (g, raises exception)
  by_verdict g command lease current_state (returns (true, reason)) =
      let (after, result) =
        allow_if_recorded g command lease current_state reason
          (remember_authorized_use g.replay command lease) in
      (after, returns result)
  by_verdict g command lease current_state (returns (false, reason)) =
      let (after, result) =
        refuse_and_remember g command lease current_state reason (remember g.replay command) in
      (after, returns result)

  -- With a lease: it is validated, against the revocations of this moment.
  unfoldable pub with_lease :
      GateState
      → EdgeCommand
      → Option CapabilityLease
      → Option RobotStateAssertion
      → Instant
      → GateState × Outcome GateResult
  with_lease g command none current_state now =
      let (after, result) =
        reject_command rt gate g command none current_state "NO_LEASE" false true in
      (after, returns result)
  with_lease g command (some lease) current_state now = by_verdict g command lease current_state (
      validate_lease_for_command rt gate.validation (some lease) (use_of_command command)
        current_state (keys g.revocations) now)

  unfoldable pub authenticated :
      GateState
      → EdgeCommand
      → Option CapabilityLease
      → Option RobotStateAssertion
      → Instant
      → GateState × Outcome GateResult
  authenticated g command lease current_state now =
      if local_edge_context_mismatch gate command lease
      then (let (after, result) = reject_local_edge_mismatch rt gate g command lease in
          (after, returns result))
      else if contains_command g.replay command
      then (let (after, result) =
            reject_command rt gate g command lease current_state "COMMAND_REPLAYED" false true in
          (after, returns result))
      else with_lease g command lease current_state now

  unfoldable pub by_auth :
      Option String
      → GateState
      → EdgeCommand
      → Option CapabilityLease
      → Option RobotStateAssertion
      → Instant
      → GateState × Outcome GateResult
  by_auth (some auth_reason) g command lease current_state now =
      let (after, result) =
        reject_command rt gate g command lease current_state auth_reason false false in
      (after, returns result)
  by_auth none g command lease current_state now = authenticated g command lease current_state now

  unfoldable pub evaluate :
      GateState
      → EdgeCommand
      → Option CapabilityLease
      → Option RobotStateAssertion
      → Instant
      → Instant
      → GateState × Outcome GateResult
  evaluate g command lease current_state command_now lease_now =
      by_auth (command_auth_violation rt gate command command_now) g command lease current_state
        lease_now
