-- ===== src/Gate/Replay.antt =====
-- command_gate.py `CommandReplayCache`. A row of the table is its primary key; the other columns
-- (command_id, command_nonce, created_at, consumed_at) are written and never read. A transaction
-- that meets an `IntegrityError` is rolled back.
pub mod Once
use rclp.Prelude.{
  Bool, true, false, not, ◌&&◌, ◌||◌, Option, none, some, String, List, [], ◌∷◌, ◌==◌,
  if◌then◌else◌, contains,
}
use rclp.Core.Models.{EdgeCommand, CapabilityLease}

pub record ReplayKey : Type 0 where
  pub scope : String
  pub kind : String
  pub value : String

abbrev pub key_eq : ReplayKey → ReplayKey → Bool
key_eq a b = (a.scope == b.scope) && (a.kind == b.kind) && (a.value == b.value)

unfoldable pub has_key : ReplayKey → List ReplayKey → Bool
has_key k [] = false
has_key k (r ∷ rows) = key_eq k r || has_key k rows

-- Without a store path the cache is in memory; its sets are those of pairs (agent, value).
pub record ReplayCache : Type 0 where
  pub rows : Option (List ReplayKey)
  pub durable_flag : Bool
  pub seen_command_ids : List ReplayKey
  pub seen_nonces : List ReplayKey
  pub seen_lease_nonces : List String

-- The property `durable`.
unfoldable pub durable : ReplayCache → Bool
durable cache = elim cache.rows [ none ↦ false | some rows ↦ cache.durable_flag ]

abbrev pub lease_nonce_replay_scope : String
lease_nonce_replay_scope = "__lease_nonce__"

abbrev pub command_id_key : String → EdgeCommand → ReplayKey
command_id_key agent command = record {
  scope = agent;
  kind = "command_id";
  value = command.command_id;
}

abbrev pub nonce_key : String → EdgeCommand → ReplayKey
nonce_key agent command = record {
  scope = agent;
  kind = "command_nonce";
  value = command.command_nonce;
}

abbrev pub lease_nonce_key : CapabilityLease → ReplayKey
lease_nonce_key lease = record {
  scope = lease_nonce_replay_scope;
  kind = "lease_nonce";
  value = lease.nonce;
}

-- The inserts of one transaction, in order, each with the reason of its conflict; the result has
-- the new rows, or the reason and the old ones.
unfoldable pub insert_all :
    List ReplayKey → List (ReplayKey × String) → List ReplayKey × Option String
insert_all rows [] = (rows, none)
insert_all rows ((key, reason) ∷ entries) =
    let rest = insert_all (key ∷ rows) entries in
    if has_key key rows then (rows, some reason) else rest

-- Roll back to `before` on a conflict.
unfoldable pub transact :
    List ReplayKey → List ReplayKey × Option String → List ReplayKey × Option String
transact before (after, none) = (after, none)
transact before (after, some reason) = (before, some reason)

abbrev pub use_entries : String → EdgeCommand → CapabilityLease → List (ReplayKey × String)
use_entries agent command lease =
    (command_id_key agent command, "COMMAND_REPLAYED")
    ∷ (nonce_key agent command, "COMMAND_REPLAYED")
    ∷ (lease_nonce_key lease, "LEASE_NONCE_REPLAYED")
    ∷ []

abbrev pub command_entries : String → EdgeCommand → List (ReplayKey × String)
command_entries agent command =
    (command_id_key agent command, "COMMAND_REPLAYED")
    ∷ (nonce_key agent command, "COMMAND_REPLAYED")
    ∷ []

-- What a transaction leaves, as `(recorded, reason)`.
unfoldable pub stored : ReplayCache → List ReplayKey × Option String → ReplayCache × (Bool × String)
stored cache (rows, none) = (record cache { rows = some rows }, (true, "LEASE_VALID"))
stored cache (rows, some reason) = (record cache { rows = some rows }, (false, reason))

unfoldable pub memory_seen : ReplayCache → String → EdgeCommand → Bool
memory_seen cache agent command =
    has_key (command_id_key agent command) cache.seen_command_ids
    || has_key (nonce_key agent command) cache.seen_nonces

unfoldable pub remember_in :
    Option (List ReplayKey) → String → EdgeCommand → ReplayCache → ReplayCache × Bool
remember_in (some rows) agent command cache =
    let (after, (recorded, reason)) =
      stored cache (transact rows (insert_all rows (command_entries agent command))) in
    (after, recorded)
remember_in none agent command cache = if memory_seen cache agent command then (cache, false) else (
  record cache {
    seen_command_ids = command_id_key agent command ∷ cache.seen_command_ids;
    seen_nonces = nonce_key agent command ∷ cache.seen_nonces;
  },
  true,
)

unfoldable pub remember : ReplayCache → EdgeCommand → ReplayCache × Bool
remember cache command = elim command.authenticated_agent_id [
  | none ↦ (cache, false)
  | some agent ↦ remember_in cache.rows agent command cache
]

unfoldable pub authorize_in :
    Option (List ReplayKey)
    → String
    → EdgeCommand
    → CapabilityLease
    → ReplayCache
    → ReplayCache × (Bool × String)
authorize_in (some rows) agent command lease cache =
    stored cache (transact rows (insert_all rows (use_entries agent command lease)))
authorize_in none agent command lease cache =
    if memory_seen cache agent command
    then (cache, (false, "COMMAND_REPLAYED"))
    else if contains lease.nonce cache.seen_lease_nonces
    then (cache, (false, "LEASE_NONCE_REPLAYED"))
    else (
      record cache {
        seen_command_ids = command_id_key agent command ∷ cache.seen_command_ids;
        seen_nonces = nonce_key agent command ∷ cache.seen_nonces;
        seen_lease_nonces = lease.nonce ∷ cache.seen_lease_nonces;
      },
      (true, "LEASE_VALID"),
    )

unfoldable pub remember_authorized_use :
    ReplayCache → EdgeCommand → CapabilityLease → ReplayCache × (Bool × String)
remember_authorized_use cache command lease = elim command.authenticated_agent_id [
  | none ↦ (cache, (false, "COMMAND_REPLAYED"))
  | some agent ↦ authorize_in cache.rows agent command lease cache
]

unfoldable pub contained_in : Option (List ReplayKey) → String → EdgeCommand → ReplayCache → Bool
contained_in (some rows) agent command cache =
    has_key (command_id_key agent command) rows || has_key (nonce_key agent command) rows
contained_in none agent command cache = memory_seen cache agent command

unfoldable pub contains_command : ReplayCache → EdgeCommand → Bool
contains_command cache command = elim command.authenticated_agent_id [
  | none ↦ false
  | some agent ↦ contained_in cache.rows agent command cache
]
