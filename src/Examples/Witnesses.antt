-- ===== src/Examples/Witnesses.antt =====
-- The theorems about a gate at work on the concrete gate.
use rclp.Prelude.{
  ◌∷◌, ◌≡◌, ◌↔◌, refl, inl, Bool, true, false, not, ◌&&◌, ◌||◌, none, some, [], contains, lookup,
  ◌==◌, if◌then◌else◌,
}
use rclp.Core.Conformance.{returns}
use rclp.Gate.Replay.{
  authorize_in, stored, transact, insert_all, ReplayCache, ReplayKey, key_eq, has_key,
  command_id_key, nonce_key, lease_nonce_key, remember_authorized_use,
}
use rclp.Gate.Replay.Once.{rows_of, authorized_use_exact}
use rclp.Gate.Revocations.{Tables, record_revocation, load_all}
use rclp.Gate.Revocations.Durable.{record_once, record_again, load_all-record}
use rclp.Gate.Auth.{command_auth_violation}
use rclp.Gate.Auth.Spec.{IsGenuine, command_auth_iff}
use rclp.Gate.Reject.{reject_command}
use rclp.Gate.Reject.Keeps.{IsRefusal, reject_command-IsRefusal}
use rclp.Gate.Payload.{command_payload_budget}
use rclp.Gate.Payload.Ends.{command_payload_budget_total}
use rclp.Gate.Evaluate.{evaluate}
use rclp.Gate.Evaluate.Safety.{was_allowed, Permits, evaluate_iff}
use rclp.Gate.Evaluate.Frame.{OnlyReplay, evaluate-OnlyReplay}
use rclp.Gate.Revoke.{message, revoke}
use rclp.Gate.Revoke.Checks.{revoked_lease, revocation_rejection}
use rclp.Gate.Revoke.Checks.Spec.{IsAccepted, revocation_rejection_iff}
use rclp.Gate.Revoke.Accepted.{revoke_iff}
use rclp.Gate.Revoke.Effect.{InSync, Revokes, revoke-Revokes, was_revoked}
use rclp.Gate.Runs.{restart, done, followed_by, restarts}
use rclp.Gate.Runs.Safety.{Progress, Run-Progress, never_again, revoked_for_good}
use rclp.Gate.State.{GateState}
use rclp.Examples.{
  runtime, gate, fresh_gate, command, payload, lease, robot_state, revocation, clock_time,
}
use rclp.Examples.Runs.{use_allowed}
use rclp.Examples.Revocations.{revocation_accepted, revocation_recorded}

abbrev used_gate : GateState
used_gate =
    (evaluate runtime gate fresh_gate command (some lease) (some robot_state) (clock_time 5)
      (clock_time 5)).0

abbrev revoked_gate : GateState
revoked_gate = (revoke runtime gate fresh_gate (message revocation) (some lease) (clock_time 5)).0

fresh-InSync : InSync fresh_gate
unfolding load_all
fresh-InSync k = refl

never_again_example :
    was_allowed
      (evaluate runtime gate
        (restart used_gate)
        command
        (some lease)
        none
        (clock_time 6)
        (clock_time 6)).1
    ≡ false
never_again_example =
    never_again fresh_gate command command lease lease (some robot_state) none (clock_time 5)
      (clock_time 5) (clock_time 6) (clock_time 6) refl use_allowed (followed_by done restarts)
      (inl refl)

revoked_for_good_example :
    was_allowed
      (evaluate runtime gate
        (restart revoked_gate)
        command
        (some lease)
        (some robot_state)
        (clock_time 6)
        (clock_time 6)).1
    ≡ false
revoked_for_good_example =
    revoked_for_good fresh_gate revocation lease (clock_time 5) command lease (some robot_state)
      (clock_time 6) (clock_time 6) fresh-InSync revocation_accepted (followed_by done restarts)
      refl

evaluate_iff_example :
    (was_allowed
        (evaluate runtime gate fresh_gate command
          (some lease)
          (some robot_state)
          (clock_time 5)
          (clock_time 5)).1
      ≡ true)
    ↔ Permits runtime gate fresh_gate command lease (some robot_state) (clock_time 5) (clock_time 5)
evaluate_iff_example =
    evaluate_iff runtime gate fresh_gate command lease (some robot_state) (clock_time 5)
      (clock_time 5)

evaluate-OnlyReplay_example : OnlyReplay fresh_gate used_gate
evaluate-OnlyReplay_example =
    evaluate-OnlyReplay runtime gate fresh_gate command (some lease) (some robot_state)
      (clock_time 5) (clock_time 5)

command_auth_iff_example :
    (command_auth_violation runtime gate command (clock_time 5) ≡ none)
    ↔ IsGenuine runtime gate command (clock_time 5)
command_auth_iff_example = command_auth_iff runtime gate command (clock_time 5)

reject_command-IsRefusal_example : IsRefusal fresh_gate "NETWORK_DETACHED" (
    reject_command runtime gate fresh_gate command
      (some lease)
      (some robot_state)
      "NETWORK_DETACHED"
      true
      true)
reject_command-IsRefusal_example =
    reject_command-IsRefusal runtime gate fresh_gate command (some lease) (some robot_state)
      "NETWORK_DETACHED" true true

command_payload_budget_total_example :
    (violated : Bool) × (command_payload_budget runtime payload ≡ some violated)
command_payload_budget_total_example = command_payload_budget_total runtime payload

authorized_use_exact_example :
    ((remember_authorized_use fresh_gate.replay command lease).1.0
      ≡ not (
          has_key (command_id_key "agent-1" command) []
          || has_key (nonce_key "agent-1" command) []
          || has_key (lease_nonce_key lease) []))
    × ((k : ReplayKey)
        → has_key k (rows_of (remember_authorized_use fresh_gate.replay command lease).0) ≡ (
            has_key k []
            || ((remember_authorized_use fresh_gate.replay command lease).1.0
                && (key_eq k (command_id_key "agent-1" command)
                    || key_eq k (nonce_key "agent-1" command)
                    || key_eq k (lease_nonce_key lease)))))
authorized_use_exact_example = authorized_use_exact fresh_gate.replay command lease refl refl

revocation_rejection_iff_example :
    (revocation_rejection runtime gate revocation lease (clock_time 5) ≡ none)
    ↔ IsAccepted runtime gate revocation lease (clock_time 5)
revocation_rejection_iff_example =
    revocation_rejection_iff runtime gate revocation lease (clock_time 5)

revoke_iff_example :
    (was_revoked (revoke runtime gate fresh_gate (message revocation) (some lease) (clock_time 5)).1
      ≡ true)
    ↔ (IsAccepted runtime gate revocation lease (clock_time 5)
        × (tables : Tables) × (fresh_gate.store.tables ≡ some tables)
        × (contains "revocation-1" tables.revocation_messages ≡ false))
revoke_iff_example = revoke_iff runtime gate revocation lease fresh_gate (clock_time 5)

revoke-Revokes_example : Revokes fresh_gate revoked_gate
revoke-Revokes_example =
    revoke-Revokes runtime gate fresh_gate (message revocation) (some lease) (clock_time 5)

Run-Progress_example : Progress fresh_gate (restart fresh_gate)
Run-Progress_example = Run-Progress runtime gate (followed_by done restarts)

record_once_example :
    (record_revocation fresh_gate.store (revoked_lease revocation lease)).1
    ≡ returns (not (contains "revocation-1" []))
record_once_example = record_once fresh_gate.store (revoked_lease revocation lease) refl refl

record_again_example :
    ((record_revocation
        (record_revocation fresh_gate.store (revoked_lease revocation lease)).0
        (revoked_lease revocation lease)).1
      ≡ returns false)
    × ((record_revocation
          (record_revocation fresh_gate.store (revoked_lease revocation lease)).0
          (revoked_lease revocation lease)).0
        ≡ (record_revocation fresh_gate.store (revoked_lease revocation lease)).0)
record_again_example =
    record_again fresh_gate.store (revoked_lease revocation lease) refl refl
      (revoked_lease revocation lease) refl revocation_recorded

load_all-record_example :
    lookup "lease-1"
      (load_all (record_revocation fresh_gate.store (revoked_lease revocation lease)).0)
    ≡ (if "lease-1" == "lease-1"
        then some (revoked_lease revocation lease)
        else lookup "lease-1" (load_all fresh_gate.store))
load_all-record_example =
    load_all-record fresh_gate.store (revoked_lease revocation lease) "lease-1" revocation_recorded

use_recorded : (remember_authorized_use fresh_gate.replay command lease).1.0 ≡ true
unfolding remember_authorized_use authorize_in stored transact insert_all has_key
use_recorded = refl

-- A cache that has seen the lease's nonce.
abbrev seen_lease : ReplayCache
seen_lease = record (fresh_gate.replay) { rows = some (lease_nonce_key lease ∷ []) }

use_refused : (remember_authorized_use seen_lease command lease).1.0 ≡ false
unfolding remember_authorized_use authorize_in stored transact insert_all has_key
use_refused = refl
