-- ===== src/Gate/Evaluate/Safety.antt =====
-- When `CommandGate.evaluate` allows a command.
use rclp.Prelude.{
  ◌≡◌, refl, sym, ◌∙◌, ap, ◌↔◌, Bool, true, false, Option, none, some, String, keys, Violation,
  Verdict, Bool-cases, inl, inr,
}
use rclp.Core.Time.{Instant}
use rclp.Core.Models.{EdgeCommand, CapabilityLease, RobotStateAssertion}
use rclp.Core.Runtime.{Runtime}
use rclp.Core.Conformance.{Outcome, returns, raises}
use rclp.Core.Conformance.Validate.{validate_lease_for_command}
use rclp.Core.Conformance.Validate.Sound.{Authorizes, validate_iff, accepted_reason}
use rclp.Gate.Replay.{ReplayCache, remember, remember_authorized_use, contains_command}
use rclp.Gate.State.{Gate, GateState, GateResult}
use rclp.Gate.Auth.{command_auth_violation}
use rclp.Gate.Auth.Spec.{IsGenuine, command_auth_iff}
use rclp.Gate.Reject.{reject_command}
use rclp.Gate.Reject.Keeps.{reject_command-IsRefusal, reject_local_edge_mismatch-IsRefusal}
use rclp.Gate.Evaluate.{
  local_edge_context_mismatch, use_of_command, allow_if_recorded, refuse_and_remember, by_verdict,
  with_lease, authenticated, by_auth, evaluate,
}

-- A call that raises allows nothing.
abbrev pub was_allowed : Outcome GateResult → Bool
was_allowed (returns result) = result.allowed
was_allowed (raises exception) = false

-- What must hold for a command to go through.
pub record Permits (rt : Runtime) (gate : Gate) (g : GateState) (command : EdgeCommand)
    (lease : CapabilityLease) (state : Option RobotStateAssertion) (command_now lease_now : Instant)
    : Type 0 where
  pub genuine : IsGenuine rt gate command command_now
  pub local_edge : local_edge_context_mismatch gate command (some lease) ≡ false
  pub unused : contains_command g.replay command ≡ false
  pub authorizes :
      Authorizes rt gate.validation lease
        (use_of_command command)
        state
        (keys g.revocations)
        lease_now
  pub recorded : (remember_authorized_use g.replay command lease).1.0 ≡ true

module _ (rt : Runtime) (gate : Gate) (g : GateState) (command : EdgeCommand) where
  reject-denied :
      (h : GateState) (lease : Option CapabilityLease) (state : Option RobotStateAssertion)
      (reason : String) (emit relevant : Bool)
      → (reject_command rt gate h command lease state reason emit relevant).1.allowed ≡ false
  reject-denied h lease state reason emit relevant =
      (reject_command-IsRefusal rt gate h command lease state reason emit relevant).denied

  recorded-of :
      (lease : CapabilityLease) (state : Option RobotStateAssertion) (reason : String)
      (r : ReplayCache × (Bool × String))
      → (allow_if_recorded rt gate g command lease state reason r).1.allowed ≡ r.1.0
  unfolding allow_if_recorded
  recorded-of lease state reason (cache, (true, why)) = refl
  recorded-of lease state reason (cache, (false, why)) =
      reject-denied (record g { replay = cache }) (some lease) state why false true

  unremembered-denied :
      (lease : CapabilityLease) (state : Option RobotStateAssertion) (reason : String)
      (r : ReplayCache × Bool)
      → (refuse_and_remember rt gate g command lease state reason r).1.allowed ≡ false
  unfolding refuse_and_remember
  unremembered-denied lease state reason (cache, true) =
      reject-denied (record g { replay = cache }) (some lease) state reason true true
  unremembered-denied lease state reason (cache, false) =
      reject-denied (record g { replay = cache }) (some lease) state "COMMAND_REPLAYED" false true

  accepted-of :
      (lease : CapabilityLease) (state : Option RobotStateAssertion) (o : Outcome Verdict)
      → was_allowed (by_verdict rt gate g command lease state o).1 ≡ true
      → (reason : String) × (o ≡ returns (true, reason))
        × ((remember_authorized_use g.replay command lease).1.0 ≡ true)
  unfolding by_verdict
  accepted-of lease state (raises e) h = cc
  accepted-of lease state (returns (true, reason)) h = (
    reason,
    refl,
    sym (recorded-of lease state reason (remember_authorized_use g.replay command lease)) ∙ h,
  )
  accepted-of lease state (returns (false, reason)) h =
      cc (unremembered-denied lease state reason (remember g.replay command), h)

  Permits-of :
      (lease : CapabilityLease) (state : Option RobotStateAssertion) (t1 t2 : Instant)
      (v : Violation)
      → command_auth_violation rt gate command t1 ≡ v
      → was_allowed (by_auth rt gate v g command (some lease) state t2).1 ≡ true
      → Permits rt gate g command lease state t1 t2
  unfolding by_auth authenticated with_lease
  Permits-of lease state t1 t2 (some reason) e h =
      cc (reject-denied g (some lease) state reason false false, h)
  Permits-of lease state t1 t2 none e h =
      elim (Bool-cases (local_edge_context_mismatch gate command (some lease))) [
        | inl m ↦ cc (
          rw m at h,
          (reject_local_edge_mismatch-IsRefusal rt gate g command (some lease)).denied,
        )
        | inr m ↦ elim (Bool-cases (contains_command g.replay command)) [
          | inl c ↦
              cc (rw (m, c) at h, reject-denied g (some lease) state "COMMAND_REPLAYED" false true)
          | inr c ↦
              let o =
                validate_lease_for_command rt gate.validation (some lease) (use_of_command command)
                  state (keys g.revocations) t2 in
              let (reason, accepted, recorded) = accepted-of lease state o (rw (m, c) at h) in
              let valid =
                accepted_reason rt gate.validation lease (use_of_command command) state
                  (keys g.revocations) t2 reason accepted in
              record {
                genuine = (command_auth_iff rt gate command t1).0 e;
                local_edge = m;
                unused = c;
                authorizes =
                    (validate_iff rt gate.validation lease (use_of_command command) state
                        (keys g.revocations) t2).0
                      (accepted ∙ ap (λ (r : String). returns (true, r)) valid);
                recorded = recorded;
              }
        ]
      ]

  allowed-of :
      (lease : CapabilityLease) (state : Option RobotStateAssertion) (t1 t2 : Instant)
      → Permits rt gate g command lease state t1 t2
      → was_allowed (evaluate rt gate g command (some lease) state t1 t2).1 ≡ true
  unfolding evaluate by_auth authenticated with_lease by_verdict
  allowed-of lease state t1 t2 p =
      let auth = (command_auth_iff rt gate command t1).1 p.genuine in
      let valid =
        (validate_iff rt gate.validation lease (use_of_command command) state (keys g.revocations)
            t2).1
          p.authorizes in
      rw (auth, p.local_edge, p.unused, valid)
        (recorded-of lease state "LEASE_VALID" (remember_authorized_use g.replay command lease)
          ∙ p.recorded)

  -- `evaluate` allows a command under a lease exactly when the command is genuine, both are for this
  -- edge, the command is unused, the lease authorises it against the revocations of the moment, and
  -- its use could be recorded.
  pub evaluate_iff :
      (lease : CapabilityLease) (state : Option RobotStateAssertion)
      (command_now lease_now : Instant)
      → (was_allowed (evaluate rt gate g command (some lease) state command_now lease_now).1 ≡ true)
        ↔ Permits rt gate g command lease state command_now lease_now
  unfolding evaluate
  evaluate_iff lease state t1 t2 = (
    Permits-of lease state t1 t2 (command_auth_violation rt gate command t1) refl,
    allowed-of lease state t1 t2,
  )

  no_lease-of :
      (state : Option RobotStateAssertion) (t2 : Instant) (v : Violation)
      → was_allowed (by_auth rt gate v g command none state t2).1 ≡ false
  unfolding by_auth authenticated with_lease
  no_lease-of state t2 (some reason) = reject-denied g none state reason false false
  no_lease-of state t2 none = elim (Bool-cases (local_edge_context_mismatch gate command none)) [
    | inl m ↦ rw m (reject_local_edge_mismatch-IsRefusal rt gate g command none).denied
    | inr m ↦ elim (Bool-cases (contains_command g.replay command)) [
      | inl c ↦ rw (m, c) (reject-denied g none state "COMMAND_REPLAYED" false true)
      | inr c ↦ rw (m, c) (reject-denied g none state "NO_LEASE" false true)
    ]
  ]

  -- Without a lease nothing is allowed.
  pub no_lease_denied :
      (state : Option RobotStateAssertion) (command_now lease_now : Instant)
      → was_allowed (evaluate rt gate g command none state command_now lease_now).1 ≡ false
  unfolding evaluate
  no_lease_denied state t1 t2 = no_lease-of state t2 (command_auth_violation rt gate command t1)
