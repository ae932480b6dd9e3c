-- ===== src/Gate/Reject/Keeps.antt =====
-- A rejection leaves the replay cache and the revocations alone, and puts an event on the record.
use rclp.Prelude.{◌≡◌, refl, Bool, false, Option, none, some, String}
use rclp.Core.Models.{EdgeCommand, CapabilityLease, RobotStateAssertion, FallbackDeclaration}
use rclp.Core.Runtime.{Runtime}
use rclp.Gate.State.{Gate, GateState, GateResult, AuditEntry, record_audit}
use rclp.Gate.State.Keeps.{Keeps, emit_fallback-Keeps, record_audit-Keeps, Keeps-trans}
use rclp.Gate.Reject.{reject_command, reject_local_edge_mismatch, finish_rejection}

-- What every rejection does: nothing is allowed, the reason is given and an event is named.
pub record IsRefusal (old : GateState) (reason : String) (answer : GateState × GateResult)
    : Type 0 where
  pub keeps : Keeps old answer.0
  pub denied : answer.1.allowed ≡ false
  pub reason_given : answer.1.reason_code ≡ reason

module _ (rt : Runtime) (gate : Gate) where
  finish-IsRefusal :
      (g : GateState) (entry : AuditEntry) (reason id : String) (d : Option FallbackDeclaration)
      → IsRefusal g reason (finish_rejection rt gate reason d (record_audit entry g) id)
  unfolding finish_rejection
  finish-IsRefusal g entry reason id none = record {
    keeps = record_audit-Keeps entry g;
    denied = refl;
    reason_given = refl;
  }
  finish-IsRefusal g entry reason id (some d) = record {
    keeps =
        Keeps-trans (record_audit-Keeps entry g)
          (emit_fallback-Keeps rt gate d (record_audit entry g));
    denied = refl;
    reason_given = refl;
  }

  -- `_reject_command` never allows, answers with its reason, records an event, and changes neither
  -- the replay cache nor the revocations.
  pub reject_command-IsRefusal :
      (g : GateState) (command : EdgeCommand) (lease : Option CapabilityLease)
      (state : Option RobotStateAssertion) (reason : String) (emit relevant : Bool)
      → IsRefusal g reason (reject_command rt gate g command lease state reason emit relevant)
  unfolding reject_command
  reject_command-IsRefusal g command lease state reason emit relevant =
      finish-IsRefusal g _ reason _ _

  pub reject_local_edge_mismatch-IsRefusal :
      (g : GateState) (command : EdgeCommand) (lease : Option CapabilityLease)
      → IsRefusal g "EDGE_AGENT_MISMATCH" (reject_local_edge_mismatch rt gate g command lease)
  unfolding reject_local_edge_mismatch
  reject_local_edge_mismatch-IsRefusal g command lease = record {
    keeps = record_audit-Keeps _ g;
    denied = refl;
    reason_given = refl;
  }
