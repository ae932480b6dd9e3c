-- ===== src/Gate/Runs/Safety.antt =====
-- What holds over any sequence of calls and restarts.
use rclp.Prelude.{
  ◌≡◌, ◌⊎◌, inl, inr, refl, sym, ◌∙◌, ap, subst, Bool, true, false, not, ◌||◌, Option, some, String,
  List, arith, contains, keys, contains-keys_iff, Bool-cases,
}
use rclp.Core.Time.{Instant}
use rclp.Core.Models.{CapabilityLease, LeaseRevocation, RobotStateAssertion, EdgeCommand}
use rclp.Core.Runtime.{Runtime}
use rclp.Gate.Replay.{ReplayKey, ReplayCache, has_key, command_id_key, nonce_key, lease_nonce_key}
use rclp.Gate.Replay.Once.{Grows, rows_of, authorized_use_once, authorized_use_recorded}
use rclp.Gate.Revocations.Durable.{load_all-reopen_store}
use rclp.Gate.State.{Gate, GateState}
use rclp.Gate.Evaluate.{evaluate}
use rclp.Gate.Evaluate.Safety.{was_allowed, Permits, evaluate_iff}
use rclp.Gate.Evaluate.Frame.{CacheGrows, CacheGrows-refl, evaluate-OnlyReplay, permitted-replay}
use rclp.Gate.Revoke.{message, revoke}
use rclp.Gate.Revoke.Effect.{InSync, RevocationsGrow, revoke-Revokes, was_revoked, revoke_accepted}
use rclp.Gate.Runs.{restart, Step, evaluates, revokes, restarts, Run, done, followed_by}

-- What every run keeps, from a state whose memory agrees with its store.
pub record Progress (old new : GateState) : Type 0 where
  pub replay : CacheGrows old.replay new.replay
  pub grows : InSync old → RevocationsGrow old new
  pub in_sync : InSync old → InSync new

module _ (rt : Runtime) (gate : Gate) where
  Step-Progress : {g h : GateState} → Step rt gate g h → Progress g h
  unfolding restart
  Step-Progress {g} (evaluates command lease state t1 t2) =
      let f = evaluate-OnlyReplay rt gate g command lease state t1 t2 in
      record {
        replay = f.replay;
        grows = λ s k h. rw f.revocations h;
        in_sync = λ s k. rw (f.revocations, f.store) (s k);
      }
  Step-Progress {g} (revokes input lease now) =
      let r = revoke-Revokes rt gate g input lease now in
      record {
        replay = λ rows e. (rows, ap (λ (c : ReplayCache). c.rows) r.replay ∙ e, λ k h. h);
        grows = λ s. r.grows;
        in_sync = r.in_sync;
      }
  Step-Progress {g} restarts = record {
    replay = λ rows e. (rows, e, λ k h. h);
    grows = λ s k h. rw (load_all-reopen_store g.store, sym (s k)) h;
    in_sync = λ s k. refl;
  }

  -- Over any sequence of evaluations, revocations and restarts, the durable replay cache loses no key,
  -- and, while memory agrees with the store, no revocation is forgotten and memory still agrees.
  pub Run-Progress : {g h : GateState} → Run rt gate g h → Progress g h
  Run-Progress {g} done = record {
    replay = CacheGrows-refl g.replay;
    grows = λ s k h. h;
    in_sync = λ s. s;
  }
  Run-Progress {g} (followed_by run step) =
      let p = Run-Progress run in
      let q = Step-Progress step in
      record {
        replay = λ rows e.
            let (middle, at, grows) = p.replay rows e in
            let (after, to, more) = q.replay middle at in (after, to, λ k h. more k (grows k h));
        grows = λ s k h. q.grows (p.in_sync s) k (p.grows s k h);
        in_sync = λ s. q.in_sync (p.in_sync s);
      }

-- Two uses that share the lease's nonce, or the agent and the identifier or the nonce of the command.
abbrev pub Clash : EdgeCommand → CapabilityLease → EdgeCommand → CapabilityLease → Type 0
Clash c l d m =
    (l.nonce ≡ m.nonce)
    ⊎ (c.agent_id ≡ d.agent_id)
      × ((c.command_id ≡ d.command_id) ⊎ (c.command_nonce ≡ d.command_nonce))

-- The keys of a use are all there.
record HasUse (rows : List ReplayKey) (command : EdgeCommand) (lease : CapabilityLease)
    : Type 0 where
  command_id : has_key (command_id_key command.agent_id command) rows ≡ true
  nonce : has_key (nonce_key command.agent_id command) rows ≡ true
  lease_nonce : has_key (lease_nonce_key lease) rows ≡ true

moved :
    {a b v w : String} (kind : String) (rows : List ReplayKey)
    → a ≡ b
    → v ≡ w
    → has_key (record { scope = a; kind = kind; value = v }) rows ≡ true
    → has_key (record { scope = b; kind = kind; value = w }) rows ≡ true
moved kind rows p q h = rw (sym p, sym q) h

seen :
    (rows : List ReplayKey) (c d : EdgeCommand) (l m : CapabilityLease)
    → HasUse rows c l
    → Clash c l d m
    → (has_key (command_id_key d.agent_id d) rows
        || has_key (nonce_key d.agent_id d) rows
        || has_key (lease_nonce_key m) rows)
      ≡ true
seen rows c d l m u (inl n) = ground (arith, moved "lease_nonce" rows refl n u.lease_nonce)
seen rows c d l m u (inr (a, inl i)) = ground (arith, moved "command_id" rows a i u.command_id)
seen rows c d l m u (inr (a, inr n)) = ground (arith, moved "command_nonce" rows a n u.nonce)

HasUse-Grows :
    {old new : List ReplayKey} {c : EdgeCommand} {l : CapabilityLease}
    → Grows old new
    → HasUse old c l
    → HasUse new c l
HasUse-Grows grows u = record {
  command_id = grows _ u.command_id;
  nonce = grows _ u.nonce;
  lease_nonce = grows _ u.lease_nonce;
}

rows_of-some :
    (cache : ReplayCache) {rows : List ReplayKey} → cache.rows ≡ some rows → rows_of cache ≡ rows
rows_of-some cache e = rw e refl

false-of : {b : Bool} → (b ≡ true → ⊥) → b ≡ false
false-of {b} refute = elim (Bool-cases b) [ inl y ↦ absurd (refute y) | inr n ↦ n ]

module _ {rt : Runtime} {gate : Gate} where
  used :
      {g : GateState} {rows : List ReplayKey} {command : EdgeCommand} {lease : CapabilityLease}
      {state : Option RobotStateAssertion} {t1 t2 : Instant}
      → g.replay.rows ≡ some rows
      → Permits rt gate g command lease state t1 t2
      → HasUse
          (rows_of (evaluate rt gate g command (some lease) state t1 t2).0.replay)
          command
          lease
  used {g} {command = command} {lease = lease} e p =
      let (id, nonce, lease_nonce) =
        authorized_use_recorded g.replay command lease e p.genuine.agent p.recorded in
      let same = ap rows_of (sym (permitted-replay rt gate g command p)) in
      record {
        command_id =
            subst
              (λ (r : List ReplayKey). has_key (command_id_key command.agent_id command) r ≡ true)
              same id;
        nonce =
            subst (λ (r : List ReplayKey). has_key (nonce_key command.agent_id command) r ≡ true)
              same nonce;
        lease_nonce =
            subst (λ (r : List ReplayKey). has_key (lease_nonce_key lease) r ≡ true) same
              lease_nonce;
      }

  Clash-denied :
      {h : GateState} {rows : List ReplayKey} {c d : EdgeCommand} {l m : CapabilityLease}
      {state : Option RobotStateAssertion} {t1 t2 : Instant}
      → h.replay.rows ≡ some rows
      → HasUse rows c l
      → Clash c l d m
      → Permits rt gate h d m state t1 t2
      → ⊥
  Clash-denied {h} {rows} {c} {d} {l} {m} e u clash p =
      let once = authorized_use_once h.replay d m e p.genuine.agent in
      cc (p.recorded, once, ap not (seen rows c d l m u clash))

  -- A command that clashes with an allowed one is never allowed again, under whatever lease and at
  -- whatever time, after any sequence of calls and restarts over the same durable replay cache.
  pub never_again :
      (g : GateState) {rows : List ReplayKey} (c d : EdgeCommand) (l m : CapabilityLease)
      (s r : Option RobotStateAssertion) (t1 t2 u1 u2 : Instant) {h : GateState}
      → g.replay.rows ≡ some rows
      → was_allowed (evaluate rt gate g c (some l) s t1 t2).1 ≡ true
      → Run rt gate (evaluate rt gate g c (some l) s t1 t2).0 h
      → Clash c l d m
      → was_allowed (evaluate rt gate h d (some m) r u1 u2).1 ≡ false
  never_again g {rows} c d l m s r t1 t2 u1 u2 {h} e allowed run clash =
      let p = (evaluate_iff rt gate g c l s t1 t2).0 allowed in
      let (first, at, _) = (evaluate-OnlyReplay rt gate g c (some l) s t1 t2).replay rows e in
      let there =
        subst (λ (k : List ReplayKey). HasUse k c l)
          (rows_of-some (evaluate rt gate g c (some l) s t1 t2).0.replay at) (used e p) in
      let (after, to, grows) = (Run-Progress rt gate run).replay first at in
      false-of λ again.
        Clash-denied to (HasUse-Grows grows there) clash
          ((evaluate_iff rt gate h d m r u1 u2).0 again)

  -- Once a revocation is accepted, no command is allowed under its lease, after any sequence of calls
  -- and restarts, where the gate's memory agreed with its store before.
  pub revoked_for_good :
      (g : GateState) (revocation : LeaseRevocation) (lease : CapabilityLease) (now : Instant)
      (d : EdgeCommand) (m : CapabilityLease) (r : Option RobotStateAssertion) (u1 u2 : Instant)
      {h : GateState}
      → InSync g
      → was_revoked (revoke rt gate g (message revocation) (some lease) now).1 ≡ true
      → Run rt gate (revoke rt gate g (message revocation) (some lease) now).0 h
      → m.lease_id ≡ revocation.lease_id
      → was_allowed (evaluate rt gate h d (some m) r u1 u2).1 ≡ false
  revoked_for_good g revocation lease now d m r u1 u2 {h} sync accepted run same =
      let known = (revoke_accepted rt gate revocation lease g now accepted).2 in
      let sync_after =
        (revoke-Revokes rt gate g (message revocation) (some lease) now).in_sync sync in
      let still =
        (Run-Progress rt gate run).grows sync_after revocation.lease_id (λ n. cc (known, n)) in
      false-of λ again.
        let p = (evaluate_iff rt gate h d m r u1 u2).0 again in
        let fresh =
          subst (λ (i : String). contains i (keys h.revocations) ≡ false) same
            p.authorizes.granted.not_revoked in
        still ((contains-keys_iff revocation.lease_id h.revocations).0 fresh)
