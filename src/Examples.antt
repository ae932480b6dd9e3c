-- ===== src/Examples.antt =====
-- A concrete gate, with a lease, a robot state, a command and a revocation for it.
mod Runs
mod Revocations
mod States
mod Starts
mod Witnesses
mod CoreWitnesses
mod Policies
mod Trusts
mod Issues
mod Audits
mod Imports
use rclp.Prelude.{
  ℕ, ◌+◌, ◌*◌, ◌^◌, Bool, true, false, ◌&&◌, Option, none, some, String, List, [], ◌∷◌, leb,
}
use rclp.Core.Float.{Float, finite, float_unit}
use rclp.Core.Value.{Value, null, int, Fields, end, field}
use rclp.Core.Time.{Instant, Timestamp, aware}
use rclp.Core.Models.{
  BaseMessage, NetworkState, GeofenceState, RobotStateAssertion, LeaseConstraints, CapabilityLease,
  CapabilityConstraintRequirement, CapabilityConstraintBounds, LeaseRevocation, EdgeCommand,
  remote_assist, local_autonomy_only, normal, nominal,
}
use rclp.Core.Runtime.{Runtime}
use rclp.Core.Conformance.Validate.{Config}
use rclp.Gate.Replay.{ReplayCache}
use rclp.Gate.Revocations.{RevocationStore}
use rclp.Gate.State.{Gate, GateState}

-- 11 January of year 1 in UTC, noon and `n` seconds.
abbrev pub clock_time : ℕ → Instant
clock_time n = record { wall = 907_200_000_000_000 + n * 1_000_000; east = 86_400_000_000 }

abbrev same_bytes : List ℕ → List ℕ → Bool
same_bytes [] [] = true
same_bytes (x ∷ xs) (y ∷ ys) = leb x y && leb y x && same_bytes xs ys
same_bytes _ _ = false

-- A signature is its key, whatever is signed.
abbrev pub runtime : Runtime
runtime = record {
  ed25519_verify = λ key signature message. same_bytes key signature;
  model_dump = λ message. null;
  policy_dump = λ policy. null;
  constraints_dump = λ constraints. null;
  network_dump = λ network. null;
  event_dump = λ event. null;
  geofence_dump = λ geofence. null;
  json_dumps = λ value. 110 ∷ [];
  sha256_hex = λ bytes. "0f";
  isoformat = λ timestamp. "0001-01-11";
  str_datetime = λ timestamp. "0001-01-11 00:00:00";
  str_int = λ n. "7";
  str_float = λ x. "7.0";
  uuid_hex = λ n. "a0";
  clock = λ n. aware (clock_time 0);
}

abbrev pub base_of : String → List String → BaseMessage
base_of id fields = record {
  protocol_version = "0.0.1-draft";
  message_id = id;
  correlation_id = "mission-9";
  created_at = aware (clock_time 0);
  model_fields_set = fields;
}

abbrev pub units : ℕ → Float
units n = finite false n

abbrev pub network : NetworkState
network = record {
  profile = normal;
  attached = true;
  latency_ms_p95 = units 5;
  packet_loss_pct = units 1;
  uplink_mbps = units 9;
  observed_at = aware (clock_time 0);
  model_fields_set =
      "profile" ∷ "attached" ∷ "latency_ms_p95" ∷ "packet_loss_pct" ∷ "uplink_mbps" ∷ "observed_at"
      ∷ [];
}

abbrev pub robot_state : RobotStateAssertion
robot_state = record {
  base = base_of "state-1" (
      "robot_id" ∷ "edge_agent_id" ∷ "authenticated_edge_agent_id" ∷ "mission_id" ∷ "safety_state"
      ∷ "network_state" ∷ "geofence_state" ∷ "observed_at" ∷ "human_operator_available"
      ∷ "signature_alg" ∷ []);
  robot_id = "robot-1";
  edge_agent_id = "edge-1";
  authenticated_edge_agent_id = some "edge-1";
  mission_id = "mission-9";
  safety_state = nominal;
  network_state = network;
  geofence_state = record {
    geofence_id = "yard";
    inside = true;
    verified_at = aware (clock_time 0);
  };
  observed_at = aware (clock_time 0);
  human_operator_available = true;
  signature_alg = "RCLP-DEV-ED25519";
  signature = some "AAAA";
}

abbrev pub speed_limit : Float
speed_limit = finite false (2 ^ 1075)

abbrev pub lease : CapabilityLease
lease = record {
  base = base_of "lease-message-1" ("signature_alg" ∷ []);
  lease_id = "lease-1";
  issuer_id = "issuer-1";
  agent_id = "agent-1";
  edge_agent_id = "edge-1";
  robot_id = "robot-1";
  mission_id = "mission-9";
  capability = remote_assist;
  constraints = record {
    geofence_id = some "yard";
    max_latency_ms_p95 = some (units 6);
    max_packet_loss_pct = some (units 2);
    min_uplink_mbps = some (units 8);
    fallback_on_degrade = local_autonomy_only;
    max_speed_mps = some speed_limit;
    model_fields_set =
        "geofence_id" ∷ "max_latency_ms_p95" ∷ "max_packet_loss_pct" ∷ "min_uplink_mbps"
        ∷ "fallback_on_degrade" ∷ "max_speed_mps" ∷ [];
  };
  issued_at = aware (clock_time 0);
  expires_at = aware (clock_time 300);
  nonce = "lease-nonce-1";
  policy_id = "policy-1";
  policy_digest = "sha256:0f";
  signature_alg = "RCLP-DEV-ED25519";
  signature = some "AAAA";
}

-- Asks for one metre per second.
abbrev pub payload : Fields
payload = field "speed_mps" (int false 1) end

abbrev pub command : EdgeCommand
command = record {
  base = base_of "command-message-1" ("signature_alg" ∷ []);
  command_id = "command-1";
  agent_id = "agent-1";
  authenticated_agent_id = some "agent-1";
  edge_agent_id = "edge-1";
  robot_id = "robot-1";
  mission_id = "mission-9";
  capability = "remote_assist";
  command_nonce = "command-nonce-1";
  payload = payload;
  signature_alg = "RCLP-DEV-ED25519";
  signature = some "AAAA";
}

abbrev pub revocation : LeaseRevocation
revocation = record {
  base = base_of "revocation-1" ("signature_alg" ∷ []);
  lease_id = "lease-1";
  revoked_by = "revoker-1";
  edge_agent_id = "edge-1";
  reason_code = "OPERATOR_REVOKED";
  revoked_at = aware (clock_time 0);
  fallback_action = local_autonomy_only;
  robot_id = some "robot-1";
  mission_id = none;
  capability = none;
  signature_alg = "RCLP-DEV-ED25519";
  signature = some "AAAA";
}

abbrev pub requirement : CapabilityConstraintRequirement
requirement = record {
  capability = remote_assist;
  require_geofence_id = true;
  require_network_thresholds = true;
  require_fallback_on_degrade = true;
  require_max_speed_mps = true;
}

abbrev pub bounds : CapabilityConstraintBounds
bounds = record {
  capability = remote_assist;
  geofence_id = some "yard";
  max_latency_ms_p95 = some (units 7);
  max_packet_loss_pct = some (units 3);
  min_uplink_mbps = some (units 7);
  fallback_on_degrade = some local_autonomy_only;
  max_speed_mps = some (finite false (2 ^ 1076));
}

abbrev pub config : Config
config = record {
  issuer_public_key_b64 = none;
  issuer_public_keys_by_id = some (("issuer-1", "AAAA") ∷ []);
  trusted_issuer_ids = "issuer-1" ∷ [];
  accepted_capabilities = some ("remote_assist" ∷ []);
  accepted_policy_id = some "policy-1";
  accepted_policy_digests = some ("sha256:0f" ∷ []);
  issuer_capability_scopes = some (("issuer-1", "remote_assist" ∷ []) ∷ []);
  capability_constraint_requirements = some (("remote_assist", requirement) ∷ []);
  capability_constraint_bounds = some (("remote_assist", bounds) ∷ []);
  state_public_keys_by_edge_id = some (("edge-1", "AAAA") ∷ []);
  max_lease_age_seconds = 600;
  max_lease_ttl_seconds = 600;
  max_state_age_seconds = 30;
}

abbrev pub gate : Gate
gate = record {
  local_edge_agent_id = "edge-1";
  validation = config;
  agent_public_keys_by_id = ("agent-1", "AAAA") ∷ [];
  trusted_revoker_ids = "revoker-1" ∷ [];
  revoker_public_keys_by_id = ("revoker-1", "AAAA") ∷ [];
  revoker_edge_scopes_by_id = ("revoker-1", "edge-1" ∷ []) ∷ [];
  fallback_actions_by_reason = [];
  max_command_age_seconds = 30;
  max_revocation_age_seconds = 60;
  fallback_signer = none;
  fallback_authenticated_declared_by = none;
  has_sink = false;
}

abbrev pub fresh_gate : GateState
fresh_gate = record {
  replay = record {
    rows = some [];
    durable_flag = true;
    seen_command_ids = [];
    seen_nonces = [];
    seen_lease_nonces = [];
  };
  store = record {
    tables = some (record { revoked_leases = []; revocation_messages = [] });
    durable_flag = true;
  };
  revocations = [];
  fallback_events = [];
  sunk = [];
  audit = [];
}
