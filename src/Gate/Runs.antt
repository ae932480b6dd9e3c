-- ===== src/Gate/Runs.antt =====
-- command_gate.py: a gate over time. A step is a call of `evaluate`, a call of `revoke`, or a restart:
-- `CommandGate.__init__` over the files of the old gate, with new objects for the rest.
pub mod Safety
use rclp.Prelude.{◌≡◌, Option, [], List, some}
use rclp.Core.Time.{Instant}
use rclp.Core.Models.{CapabilityLease, RobotStateAssertion, EdgeCommand}
use rclp.Core.Runtime.{Runtime}
use rclp.Gate.Replay.{ReplayKey, ReplayCache}
use rclp.Gate.Revocations.{RevocationStore, load_all, reopen_store}
use rclp.Gate.State.{Gate, GateState}
use rclp.Gate.Evaluate.{evaluate}
use rclp.Gate.Revoke.{RevocationInput, revoke}

-- A new cache object over the same file: its sets are empty.
abbrev pub reopen : ReplayCache → ReplayCache
reopen cache = record cache { seen_command_ids = []; seen_nonces = []; seen_lease_nonces = [] }

-- The state that `__init__` sets up over a cache and a store, with the log and the sink that it is given.
abbrev pub initial : ReplayCache → RevocationStore → GateState → GateState
initial cache store g = record g {
  replay = cache;
  store = store;
  revocations = load_all store;
  fallback_events = [];
}

pub restart : GateState → GateState
restart g = initial (reopen g.replay) (reopen_store g.store) g

module _ (rt : Runtime) (gate : Gate) where
  pub data Step (g : GateState) : GateState → Type 0 where
    evaluates :
        (command : EdgeCommand) (lease : Option CapabilityLease)
        (state : Option RobotStateAssertion) (command_now lease_now : Instant)
        → Step g (evaluate rt gate g command lease state command_now lease_now).0
    revokes :
        (input : RevocationInput) (lease : Option CapabilityLease) (now : Instant)
        → Step g (revoke rt gate g input lease now).0
    restarts : Step g (restart g)

  pub data Run (g : GateState) : GateState → Type 0 where
    done : Run g g
    followed_by : {h k : GateState} → Run g h → Step h k → Run g k
