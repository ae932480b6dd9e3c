-- ===== src/Core/Runtime.antt =====
-- What the package takes from elsewhere: Ed25519 (cryptography), message dumps (pydantic), hashes,
-- clocks, random identifiers, and the texts of numbers and timestamps, of which only sizes matter.
use rclp.Prelude.{ℕ, Bool, String, List}
use rclp.Core.Float.{Float}
use rclp.Core.Value.{Value}
use rclp.Core.Time.{Timestamp}
use rclp.Core.Models.{Message, AuditCommit, Policy, LeaseConstraints, NetworkState, GeofenceState}

pub record Runtime : Type 0 where
  -- public key, signature and message, all bytes; false for `InvalidSignature` and `ValueError`
  pub ed25519_verify : List ℕ → List ℕ → List ℕ → Bool
  -- `model_dump(mode="json")`, the canonical `json.dumps(...)` in UTF-8, and `sha256(...).hexdigest()`
  pub model_dump : Message → Value
  pub policy_dump : Policy → Value
  pub constraints_dump : LeaseConstraints → Value
  pub network_dump : NetworkState → Value
  pub geofence_dump : GeofenceState → Value
  pub event_dump : AuditCommit → Value
  pub json_dumps : Value → List ℕ
  pub sha256_hex : List ℕ → String
  -- `value.isoformat()`, `str(value)` of a timestamp, and `str(value)` of an int and of a float
  pub isoformat : Timestamp → String
  pub str_datetime : Timestamp → String
  pub str_int : ℕ → String
  pub str_float : Float → String
  -- the n-th call of `uuid4().hex` and of `datetime.now(timezone.utc)` for a new message
  pub uuid_hex : ℕ → String
  pub clock : ℕ → Timestamp
