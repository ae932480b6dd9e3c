-- ===== src/Gate/Revocations/Durable.antt =====
-- The durable revocations: a message counts once, and a restart finds what was recorded.
use rclp.Prelude.{
  ◌≡◌, ◌≢◌, refl, sym, ap, subst, ◌∙◌, List, ◌∷◌, [], Option-cases, Bool-cases, inl, inr, true,
  false, not, Option, none, some, String, ◌==◌, if◌then◌else◌, arith, eq_refl, contains, lookup,
  lookup-insert,
}
use rclp.Core.Conformance.{returns}
use rclp.Gate.Revocations.{
  RevokedLease, Tables, RevocationStore, load_all, record_in, record_checked, record_revocation,
  insert_or_ignore, backfill, reopen_store,
}

module _ (store : RevocationStore) (r : RevokedLease) {tables : Tables} {id : String}
    (stored : store.tables ≡ some tables) (identified : r.revocation_id ≡ some id) where
  -- A database records a revocation exactly when its message's identifier is new.
  pub record_once :
      (record_revocation store r).1 ≡ returns (not (contains id tables.revocation_messages))
  unfolding record_revocation record_checked record_in
  record_once = rw (stored, identified) (ground arith)

  -- Recording the same message identifier again, with whatever content, is refused and leaves the whole
  -- store as it is, the rows of both of its tables.
  pub record_again :
      (s : RevokedLease)
      → s.revocation_id ≡ some id
      → (record_revocation store r).1 ≡ returns true
      → ((record_revocation (record_revocation store r).0 s).1 ≡ returns false)
        × ((record_revocation (record_revocation store r).0 s).0 ≡ (record_revocation store r).0)
  unfolding record_revocation record_checked record_in contains
  record_again s again done =
      rw (stored, identified, again) (ground (arith, stored, identified, done, eq_refl id))

-- After a recorded revocation, `load_all` finds it under its lease, and every other lease as before.
pub load_all-record :
    (store : RevocationStore) (r : RevokedLease) (k : String)
    → (record_revocation store r).1 ≡ returns true
    → lookup k (load_all (record_revocation store r).0)
      ≡ (if r.lease_id == k then some r else lookup k (load_all store))
unfolding load_all record_revocation record_checked record_in
load_all-record store r k done = after store store.tables refl r.revocation_id done
  where
    after :
        (st : RevocationStore) (t : Option Tables)
        → st.tables ≡ t
        → (id : Option String) → (record_checked st t id r).1 ≡ returns true
        → lookup k (load_all (record_checked st t id r).0)
          ≡ (if r.lease_id == k then some r else lookup k (load_all st))
    after st none e id done = cc
    after st (some tables) e none done = cc
    after st (some tables) e (some id) done =
        rw e (ground (arith, done, lookup-insert r.lease_id k r tables.revoked_leases))

-- A revocation that is not recorded leaves the stored rows as they are.
pub load_all-unrecorded :
    (store : RevocationStore) (r : RevokedLease)
    → (record_revocation store r).1 ≢ returns true
    → load_all (record_revocation store r).0 ≡ load_all store
unfolding load_all record_revocation record_checked record_in
load_all-unrecorded store r failed = after store store.tables refl r.revocation_id failed
  where
    after :
        (st : RevocationStore) (t : Option Tables)
        → st.tables ≡ t
        → (id : Option String) → (record_checked st t id r).1 ≢ returns true
        → load_all (record_checked st t id r).0 ≡ load_all st
    after st none e id failed = refl
    after st (some tables) e none failed = refl
    after st (some tables) e (some id) failed = rw e (ground arith)

-- Opening the file again leaves the rows as they are.
pub load_all-reopen_store :
    (store : RevocationStore) → load_all (reopen_store store) ≡ load_all store
unfolding load_all reopen_store
load_all-reopen_store store = elim (Option-cases store.tables) [
  | inl missing ↦ rw missing refl
  | inr (tables, given) ↦ rw given refl
]

insert_or_ignore-keeps :
    (x : String) (id : Option String) (messages : List String)
    → contains x messages ≡ true
    → contains x (insert_or_ignore id messages) ≡ true
unfolding insert_or_ignore contains
insert_or_ignore-keeps x none messages h = h
insert_or_ignore-keeps x (some id) messages h = ground (arith, h)

insert_or_ignore-has :
    (id : String) (messages : List String)
    → contains id (insert_or_ignore (some id) messages) ≡ true
unfolding insert_or_ignore contains
insert_or_ignore-has id messages = ground (arith, eq_refl id)

-- Filling in messages drops none.
pub backfill-keeps :
    (x : String) (rows : List (String × RevokedLease)) (messages : List String)
    → contains x messages ≡ true
    → contains x (backfill rows messages) ≡ true
unfolding backfill
backfill-keeps x [] messages h = h
backfill-keeps x ((k, r) ∷ rows) messages h =
    backfill-keeps x rows (insert_or_ignore r.revocation_id messages)
      (insert_or_ignore-keeps x r.revocation_id messages h)

-- After filling in, the message of every row is there.
pub backfill-covers :
    (k id : String) (r : RevokedLease) (rows : List (String × RevokedLease))
    (messages : List String)
    → lookup k rows ≡ some r
    → r.revocation_id ≡ some id
    → contains id (backfill rows messages) ≡ true
unfolding backfill lookup
backfill-covers k id r [] messages found given = cc found
backfill-covers k id r ((j, s) ∷ rows) messages found given = elim (Bool-cases (j == k)) [
  | inl here ↦
      let same : s ≡ r = ground (arith, found, here) in
      backfill-keeps id rows (insert_or_ignore s.revocation_id messages) (
        subst (λ i. contains id (insert_or_ignore i messages) ≡ true)
          (sym (ap (λ (t : RevokedLease). t.revocation_id) same ∙ given))
          (insert_or_ignore-has id messages))
  | inr there ↦
      backfill-covers k id r rows (insert_or_ignore s.revocation_id messages)
        (ground (arith, found, there)) given
]
