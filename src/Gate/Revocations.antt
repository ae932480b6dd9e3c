-- ===== src/Gate/Revocations.antt =====
-- command_gate.py `RevocationStore` and `RevokedLease`. `revocation_messages` is its primary key
-- alone, since its other columns are written and never read; `recorded_at` is not read either.
pub mod Durable
use rclp.Prelude.{
  Bool, true, false, Option, none, some, String, List, [], ◌∷◌, ◌==◌, if◌then◌else◌, contains,
  insert,
}
use rclp.Core.Models.{FallbackAction}
use rclp.Core.Conformance.{Outcome, returns, raises}

pub record RevokedLease : Type 0 where
  pub lease_id : String
  pub issuer_id : String
  pub agent_id : String
  pub edge_agent_id : String
  pub robot_id : String
  pub mission_id : String
  pub capability : String
  pub reason_code : String
  pub fallback_action : Option FallbackAction
  pub revocation_id : Option String
  pub correlation_id : Option String

-- The two tables of the database file.
pub record Tables : Type 0 where
  pub revoked_leases : List (String × RevokedLease)
  pub revocation_messages : List String

pub record RevocationStore : Type 0 where
  pub tables : Option Tables
  pub durable_flag : Bool

unfoldable pub durable : RevocationStore → Bool
durable store = elim store.tables [ none ↦ false | some tables ↦ store.durable_flag ]

-- The rows by `lease_id`, the key under which they are stored.
unfoldable pub load_all : RevocationStore → List (String × RevokedLease)
load_all store = elim store.tables [ none ↦ [] | some tables ↦ tables.revoked_leases ]

-- One transaction: the message's identifier is new, and the lease's row is written over.
unfoldable pub record_in : Tables → String → RevokedLease → Tables × Bool
record_in tables revocation_id revocation =
    if contains revocation_id tables.revocation_messages then (tables, false) else (
      record {
        revoked_leases = insert revocation.lease_id revocation tables.revoked_leases;
        revocation_messages = revocation_id ∷ tables.revocation_messages;
      },
      true,
    )

unfoldable pub record_checked :
    RevocationStore → Option Tables → Option String → RevokedLease → RevocationStore × Outcome Bool
record_checked store none revocation_id revocation = (store, raises "ValueError")
record_checked store (some tables) none revocation = (store, raises "ValueError")
record_checked store (some tables) (some revocation_id) revocation =
    let (after, recorded) = record_in tables revocation_id revocation in
    (record store { tables = some after }, returns recorded)

-- The method `record`.
unfoldable pub record_revocation : RevocationStore → RevokedLease → RevocationStore × Outcome Bool
record_revocation store revocation =
    record_checked store store.tables revocation.revocation_id revocation

-- `INSERT OR IGNORE` of an identifier that a row may not have.
unfoldable pub insert_or_ignore : Option String → List String → List String
insert_or_ignore none messages = messages
insert_or_ignore (some id) messages = if contains id messages then messages else id ∷ messages

-- The messages of the rows, added to those that are there.
unfoldable pub backfill : List (String × RevokedLease) → List String → List String
backfill [] messages = messages
backfill ((lease_id, revocation) ∷ rows) messages =
    backfill rows (insert_or_ignore revocation.revocation_id messages)

-- A new store object over the same file: `__init__` finds its tables there
-- and fills in the messages.
unfoldable pub reopen_store : RevocationStore → RevocationStore
reopen_store store = record store {
  tables = elim store.tables [
    | none ↦ none
    | some tables ↦ some (record tables {
      revocation_messages = backfill tables.revoked_leases tables.revocation_messages;
    })
  ];
}
