-- ===== src/Gate/Evaluate/Frame.antt =====
-- What `CommandGate.evaluate` changes besides the audit log and the fallbacks: only the replay cache.
use rclp.Prelude.{
  ◌≡◌, refl, sym, Bool, true, false, Option, none, some, String, List, keys, Violation, Verdict,
  Bool-cases, inl, inr, subst,
}
use rclp.Core.Time.{Instant}
use rclp.Core.Models.{EdgeCommand, CapabilityLease, RobotStateAssertion}
use rclp.Core.Runtime.{Runtime}
use rclp.Core.Conformance.{Outcome, returns, raises}
use rclp.Gate.Replay.{ReplayKey, ReplayCache, remember, remember_authorized_use, contains_command}
use rclp.Gate.Replay.Once.{Grows, remember-Grows, remember_authorized_use-Grows}
use rclp.Gate.State.{Gate, GateState}
use rclp.Gate.State.Keeps.{Keeps, record_audit-Keeps}
use rclp.Gate.Auth.{command_auth_violation}
use rclp.Gate.Reject.{reject_command}
use rclp.Gate.Reject.Keeps.{reject_command-IsRefusal, reject_local_edge_mismatch-IsRefusal}
use rclp.Gate.Evaluate.{
  local_edge_context_mismatch, use_of_command, allow_if_recorded, refuse_and_remember, by_verdict,
  with_lease, authenticated, by_auth, evaluate,
}
use rclp.Gate.Auth.Spec.{command_auth_iff}
use rclp.Core.Conformance.Validate.Sound.{validate_iff}
use rclp.Gate.Evaluate.Safety.{Permits}

-- A durable cache stays durable and loses no key.
abbrev pub CacheGrows : ReplayCache → ReplayCache → Type 0
CacheGrows old new =
    (rows : List ReplayKey)
    → old.rows ≡ some rows
    → (after : List ReplayKey) × (new.rows ≡ some after) × Grows rows after

pub CacheGrows-refl : (cache : ReplayCache) → CacheGrows cache cache
CacheGrows-refl cache rows e = (rows, e, λ k h. h)

-- The revocations are untouched and the replay cache loses nothing.
pub record OnlyReplay (old new : GateState) : Type 0 where
  pub store : new.store ≡ old.store
  pub revocations : new.revocations ≡ old.revocations
  pub replay : CacheGrows old.replay new.replay

after-Keeps :
    {g h : GateState} (cache : ReplayCache)
    → CacheGrows g.replay cache
    → Keeps (record g { replay = cache }) h
    → OnlyReplay g h
after-Keeps {g} {h} cache grows k = record {
  store = k.store;
  revocations = k.revocations;
  replay = subst (λ (c : ReplayCache). CacheGrows g.replay c) (sym k.replay) grows;
}

module _ (rt : Runtime) (gate : Gate) (g : GateState) (command : EdgeCommand) where
  refused :
      (lease : Option CapabilityLease) (state : Option RobotStateAssertion) (reason : String)
      (emit relevant : Bool)
      → OnlyReplay g (reject_command rt gate g command lease state reason emit relevant).0
  refused lease state reason emit relevant =
      after-Keeps g.replay (CacheGrows-refl g.replay)
        (reject_command-IsRefusal rt gate g command lease state reason emit relevant).keeps

  allow-Frame :
      (lease : CapabilityLease) (state : Option RobotStateAssertion) (reason : String)
      (r : ReplayCache × (Bool × String))
      → CacheGrows g.replay r.0
      → OnlyReplay g (allow_if_recorded rt gate g command lease state reason r).0
  unfolding allow_if_recorded
  allow-Frame lease state reason (cache, (true, why)) grows =
      after-Keeps cache grows (record_audit-Keeps _ (record g { replay = cache }))
  allow-Frame lease state reason (cache, (false, why)) grows =
      after-Keeps cache grows
        (reject_command-IsRefusal rt gate (record g { replay = cache }) command (some lease) state
          why false true).keeps

  refuse-Frame :
      (lease : CapabilityLease) (state : Option RobotStateAssertion) (reason : String)
      (r : ReplayCache × Bool)
      → CacheGrows g.replay r.0
      → OnlyReplay g (refuse_and_remember rt gate g command lease state reason r).0
  unfolding refuse_and_remember
  refuse-Frame lease state reason (cache, true) grows =
      after-Keeps cache grows
        (reject_command-IsRefusal rt gate (record g { replay = cache }) command (some lease) state
          reason true true).keeps
  refuse-Frame lease state reason (cache, false) grows =
      after-Keeps cache grows
        (reject_command-IsRefusal rt gate (record g { replay = cache }) command (some lease) state
          "COMMAND_REPLAYED" false true).keeps

  verdict-Frame :
      (lease : CapabilityLease) (state : Option RobotStateAssertion) (o : Outcome Verdict)
      → OnlyReplay g (by_verdict rt gate g command lease state o).0
  unfolding by_verdict
  verdict-Frame lease state (raises e) = record {
    store = refl;
    revocations = refl;
    replay = CacheGrows-refl g.replay;
  }
  verdict-Frame lease state (returns (true, reason)) =
      allow-Frame lease state reason (remember_authorized_use g.replay command lease)
        (λ rows e. remember_authorized_use-Grows g.replay command lease e)
  verdict-Frame lease state (returns (false, reason)) =
      refuse-Frame lease state reason (remember g.replay command)
        (λ rows e. remember-Grows g.replay command e)

  auth-Frame :
      (lease : Option CapabilityLease) (state : Option RobotStateAssertion) (t2 : Instant)
      (v : Violation)
      → OnlyReplay g (by_auth rt gate v g command lease state t2).0
  unfolding by_auth authenticated with_lease
  auth-Frame lease state t2 (some reason) = refused lease state reason false false
  auth-Frame lease state t2 none =
      elim (Bool-cases (local_edge_context_mismatch gate command lease)) [
        | inl m ↦ rw m (
            after-Keeps g.replay (CacheGrows-refl g.replay)
              (reject_local_edge_mismatch-IsRefusal rt gate g command lease).keeps)
        | inr m ↦ elim (Bool-cases (contains_command g.replay command)) [
          | inl c ↦ rw (m, c) (refused lease state "COMMAND_REPLAYED" false true)
          | inr c ↦ rw (m, c) (lease-Frame lease)
        ]
      ]
    where
      lease-Frame :
          (l : Option CapabilityLease) → OnlyReplay g (with_lease rt gate g command l state t2).0
      lease-Frame none = refused none state "NO_LEASE" false true
      lease-Frame (some l) = verdict-Frame l state _

  -- Whatever it answers, `evaluate` leaves the revocations, in memory and in the store, as they are,
  -- and a durable replay cache stays durable and loses no key.
  pub evaluate-OnlyReplay :
      (lease : Option CapabilityLease) (state : Option RobotStateAssertion)
      (command_now lease_now : Instant)
      → OnlyReplay g (evaluate rt gate g command lease state command_now lease_now).0
  unfolding evaluate
  evaluate-OnlyReplay lease state t1 t2 =
      auth-Frame lease state t2 (command_auth_violation rt gate command t1)

  allowed-cache :
      (lease : CapabilityLease) (state : Option RobotStateAssertion) (reason : String)
      (r : ReplayCache × (Bool × String))
      → (allow_if_recorded rt gate g command lease state reason r).0.replay ≡ r.0
  unfolding allow_if_recorded
  allowed-cache lease state reason (cache, (true, why)) =
      (record_audit-Keeps _ (record g { replay = cache })).replay
  allowed-cache lease state reason (cache, (false, why)) =
      (reject_command-IsRefusal rt gate (record g { replay = cache }) command (some lease) state why
        false true).keeps.replay

  -- A permitted command leaves the cache as the recorded use left it.
  pub permitted-replay :
      {lease : CapabilityLease} {state : Option RobotStateAssertion}
      {command_now lease_now : Instant}
      → Permits rt gate g command lease state command_now lease_now
      → (evaluate rt gate g command (some lease) state command_now lease_now).0.replay
        ≡ (remember_authorized_use g.replay command lease).0
  unfolding evaluate by_auth authenticated with_lease by_verdict
  permitted-replay {lease} {state} {command_now = t1} {lease_now = t2} p =
      let auth = (command_auth_iff rt gate command t1).1 p.genuine in
      let valid =
        (validate_iff rt gate.validation lease (use_of_command command) state (keys g.revocations)
            t2).1
          p.authorizes in
      rw (auth, p.local_edge, p.unused, valid)
        (allowed-cache lease state "LEASE_VALID" (remember_authorized_use g.replay command lease))
