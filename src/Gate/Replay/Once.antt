-- ===== src/Gate/Replay/Once.antt =====
-- The replay table: a key enters once, nothing leaves, and a failed transaction changes nothing.
use rclp.Prelude.{
  ◌≡◌, refl, inl, inr, true, false, not, ◌&&◌, ◌||◌, Option, none, some, String, List, [], ◌∷◌,
  arith, eq_iff, eq_refl, Option-cases, Bool, Bool-cases,
}
use rclp.Core.Models.{EdgeCommand, CapabilityLease}
use rclp.Gate.Replay.{
  ReplayKey, key_eq, has_key, ReplayCache, command_id_key, nonce_key, lease_nonce_key, insert_all,
  transact, use_entries, stored, remember_in, remember, authorize_in, remember_authorized_use,
  command_entries,
}

-- The rows of a cache that has a store, and nothing else.
abbrev pub rows_of : ReplayCache → List ReplayKey
rows_of cache = elim cache.rows [ none ↦ [] | some rows ↦ rows ]

-- No key of the old rows is lost in the new ones.
abbrev pub Grows : List ReplayKey → List ReplayKey → Type 0
Grows old new = (k : ReplayKey) → has_key k old ≡ true → has_key k new ≡ true

has_key_self : (k : ReplayKey) (rows : List ReplayKey) → has_key k (k ∷ rows) ≡ true
unfolding has_key
has_key_self k rows = ground (arith, eq_refl k.scope, eq_refl k.kind, eq_refl k.value)

or_shuffle : (l n i r : Bool) → (l || (n || (i || r))) ≡ (r || (true && (i || n || l)))
or_shuffle l n i r = ground arith

or_false : (r : Bool) → r ≡ (r || false)
or_false r = ground arith

three_keys :
    (rows : List ReplayKey) (k i n l : ReplayKey)
    → has_key k (l ∷ n ∷ i ∷ rows)
      ≡ (has_key k rows || (true && (key_eq k i || key_eq k n || key_eq k l)))
unfolding has_key
three_keys rows k i n l = or_shuffle (key_eq k l) (key_eq k n) (key_eq k i) (has_key k rows)

-- What three inserts in one transaction leave: all three keys more, or no change.
stored_keys :
    (cache : ReplayCache) (rows : List ReplayKey) (k i n l : ReplayKey)
    → let after = stored cache (
        transact rows (
          insert_all rows (
            (i, "COMMAND_REPLAYED")
            ∷ (n, "COMMAND_REPLAYED")
            ∷ (l, "LEASE_NONCE_REPLAYED")
            ∷ []))) in
      has_key k (rows_of after.0)
      ≡ (has_key k rows || (after.1.0 && (key_eq k i || key_eq k n || key_eq k l)))
unfolding stored transact insert_all
stored_keys cache rows k i n l = elim (Bool-cases (has_key i rows)) [
  | inl x ↦ rw x (or_false (has_key k rows))
  | inr x ↦ elim (Bool-cases (has_key n (i ∷ rows))) [
    | inl y ↦ rw (x, y) (or_false (has_key k rows))
    | inr y ↦ elim (Bool-cases (has_key l (n ∷ i ∷ rows))) [
      | inl z ↦ rw (x, y, z) (or_false (has_key k rows))
      | inr z ↦ rw (x, y, z) (three_keys rows k i n l)
    ]
  ]
]

-- An authorised use of a durable cache succeeds exactly when neither the command's identifier, nor
-- its nonce, nor the lease's nonce has been seen.
pub authorized_use_once :
    (cache : ReplayCache) (command : EdgeCommand) (lease : CapabilityLease) {rows : List ReplayKey}
    {agent : String}
    → cache.rows ≡ some rows
    → command.authenticated_agent_id ≡ some agent
    → ((remember_authorized_use cache command lease).1.0
        ≡ not (
            has_key (command_id_key agent command) rows
            || has_key (nonce_key agent command) rows
            || has_key (lease_nonce_key lease) rows))
unfolding remember_authorized_use authorize_in stored transact insert_all has_key
authorized_use_once cache command lease {rows} {agent} e a =
    rw (e, a)
      (ground (
        arith,
        eq_iff "command_id" "command_nonce",
        eq_iff "lease_nonce" "command_nonce",
        eq_iff "lease_nonce" "command_id",
        eq_iff "command_nonce" "command_id",
      ))

has_key-cons :
    (k j : ReplayKey) (rows : List ReplayKey) → has_key k rows ≡ true → has_key k (j ∷ rows) ≡ true
unfolding has_key
has_key-cons k j rows h = ground arith

Grows-refl : (rows : List ReplayKey) → Grows rows rows
Grows-refl rows k h = h

-- The three entries of an authorised use, on any rows.
use_transaction :
    (rows : List ReplayKey) (agent : String) (command : EdgeCommand) (lease : CapabilityLease)
    → Grows rows (transact rows (insert_all rows (use_entries agent command lease))).0
unfolding transact insert_all
use_transaction rows agent command lease k h =
    let a = command_id_key agent command in
    let b = nonce_key agent command in
    let c = lease_nonce_key lease in
    ground
      (arith, has_key-cons k a rows h, has_key-cons k b (a ∷ rows), has_key-cons k c (b ∷ a ∷ rows))

command_transaction :
    (rows : List ReplayKey) (agent : String) (command : EdgeCommand)
    → Grows rows (transact rows (insert_all rows (command_entries agent command))).0
unfolding transact insert_all
command_transaction rows agent command k h =
    let a = command_id_key agent command in
    let b = nonce_key agent command in
    ground (arith, has_key-cons k a rows h, has_key-cons k b (a ∷ rows))

rows-stored :
    (cache : ReplayCache) (r : List ReplayKey × Option String) → (stored cache r).0.rows ≡ some r.0
unfolding stored
rows-stored cache (rows, none) = refl
rows-stored cache (rows, some reason) = refl

-- An authorised use of a durable cache succeeds exactly when neither the command's identifier, nor its nonce,
-- nor the lease's nonce is in the table; if it succeeds, the keys in the table are the old ones and these
-- three, and if it fails, they are the old ones.
pub authorized_use_exact :
    (cache : ReplayCache) (command : EdgeCommand) (lease : CapabilityLease) {rows : List ReplayKey}
    {agent : String}
    → cache.rows ≡ some rows
    → command.authenticated_agent_id ≡ some agent
    → ((remember_authorized_use cache command lease).1.0
        ≡ not (
            has_key (command_id_key agent command) rows
            || has_key (nonce_key agent command) rows
            || has_key (lease_nonce_key lease) rows))
      × ((k : ReplayKey)
          → has_key k (rows_of (remember_authorized_use cache command lease).0) ≡ (
              has_key k rows
              || ((remember_authorized_use cache command lease).1.0
                  && (key_eq k (command_id_key agent command)
                      || key_eq k (nonce_key agent command)
                      || key_eq k (lease_nonce_key lease)))))
unfolding remember_authorized_use authorize_in stored
authorized_use_exact cache command lease {rows} {agent} e a = (
  authorized_use_once cache command lease e a,
  λ k.
      rw (e, a)
        (stored_keys cache rows k (command_id_key agent command) (nonce_key agent command)
          (lease_nonce_key lease)),
)

-- No call of `remember_authorized_use` on a durable cache forgets a key.
pub remember_authorized_use-Grows :
    (cache : ReplayCache) (command : EdgeCommand) (lease : CapabilityLease) {rows : List ReplayKey}
    → cache.rows ≡ some rows
    → (new : List ReplayKey) × ((remember_authorized_use cache command lease).0.rows ≡ some new)
      × Grows rows new
unfolding remember_authorized_use authorize_in stored
remember_authorized_use-Grows cache command lease {rows} e =
    elim (Option-cases command.authenticated_agent_id) [
      | inl missing ↦ (rows, rw missing e, Grows-refl rows)
      | inr (agent, given) ↦ (
        (transact rows (insert_all rows (use_entries agent command lease))).0,
        rw (given, e)
            (rows-stored cache (transact rows (insert_all rows (use_entries agent command lease)))),
        use_transaction rows agent command lease,
      )
    ]

-- No call of `remember` on a durable cache forgets a key.
pub remember-Grows :
    (cache : ReplayCache) (command : EdgeCommand) {rows : List ReplayKey}
    → cache.rows ≡ some rows
    → (new : List ReplayKey) × ((remember cache command).0.rows ≡ some new) × Grows rows new
unfolding remember remember_in stored
remember-Grows cache command {rows} e = elim (Option-cases command.authenticated_agent_id) [
  | inl missing ↦ (rows, rw missing e, Grows-refl rows)
  | inr (agent, given) ↦ (
    (transact rows (insert_all rows (command_entries agent command))).0,
    rw (given, e)
        (rows-stored cache (transact rows (insert_all rows (command_entries agent command)))),
    command_transaction rows agent command,
  )
]

-- After an authorised use all its three keys are there.
pub authorized_use_recorded :
    (cache : ReplayCache) (command : EdgeCommand) (lease : CapabilityLease) {rows : List ReplayKey}
    {agent : String}
    → cache.rows ≡ some rows
    → command.authenticated_agent_id ≡ some agent
    → (remember_authorized_use cache command lease).1.0 ≡ true
    → (has_key
          (command_id_key agent command)
          (rows_of (remember_authorized_use cache command lease).0)
        ≡ true)
      × (has_key (nonce_key agent command) (rows_of (remember_authorized_use cache command lease).0)
          ≡ true)
      × (has_key (lease_nonce_key lease) (rows_of (remember_authorized_use cache command lease).0)
          ≡ true)
unfolding remember_authorized_use authorize_in stored transact insert_all
authorized_use_recorded cache command lease {rows} {agent} e a h =
    let i = command_id_key agent command in
    let n = nonce_key agent command in
    let l = lease_nonce_key lease in
    ground (
      arith,
      e,
      a,
      has_key_self i rows,
      has_key-cons i n (i ∷ rows),
      has_key-cons i l (n ∷ i ∷ rows),
      has_key_self n (i ∷ rows),
      has_key-cons n l (n ∷ i ∷ rows),
      has_key_self l (n ∷ i ∷ rows),
    )

-- A refused use leaves the rows as they were.
pub refused_use_unchanged :
    (cache : ReplayCache) (command : EdgeCommand) (lease : CapabilityLease) {rows : List ReplayKey}
    → cache.rows ≡ some rows
    → (remember_authorized_use cache command lease).1.0 ≡ false
    → (remember_authorized_use cache command lease).0.rows ≡ some rows
unfolding remember_authorized_use authorize_in stored transact insert_all
refused_use_unchanged cache command lease {rows} e h = ground (arith, e)
