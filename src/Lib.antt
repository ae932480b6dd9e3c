-- ===== src/Lib.antt =====
-- RCLP leases authority over a robot: a policy engine issues a signed, short-lived capability lease to
-- an agent, and a command gate beside the robot admits a signed command only under such a lease. Both
-- write to a hash-chained audit log. This library models the engine, the issue of leases, the gate, every
-- check that they call, and the log.
--
-- The program's parts and the files that model them:
--   src/rclp_core/models.py: messages and enumerations (Core/Models and its children)
--   src/rclp_core/crypto.py: signed bytes, canonical base64 and key pairs (Core/Crypto, Core/Base64,
--     Core/Keys)
--   the text budgets of signed messages (Core/Budget, Core/SignedText)
--   src/rclp_core/leases.py: the checks of a lease by itself and against the local policy (Core/Leases),
--     and issuing one (Core/Issue)
--   src/rclp_core/state.py: freshness, authentication and authority of robot states (Core/State)
--   src/rclp_core/conformance.py: `validate_lease_for_command` (Core/Conformance, and
--     Core/Conformance/Validate for the function as a whole)
--   src/rclp_core/attestation.py and fallback.py (Core/Attestation, Core/Fallback); what they share with
--     policy.py and audit.py, the checks on the signer of a message (Core/Signer)
--   src/rclp_core/audit.py: `AuditLog` (Core/Audit), the chain check (Core/Audit/Chain), signed batches
--     (Core/Audit/Batch) and `load_jsonl` (Core/Audit/Load)
--   src/rclp_core/policy.py: `RequestReplayCache` (Policy/Replay), the checks on a request
--     (Policy/Request), the rules (Policy/Rules), the narrowing of constraints (Policy/Narrow),
--     `_evaluate_policy_inputs` (Policy/Decide), `evaluate_policy` (Policy/Recorded), and from an
--     answer to the lease issued on it (Policy/Issued)
--   src/rclp_ros2/command_gate.py: `CommandReplayCache` (Gate/Replay), `RevocationStore`
--     (Gate/Revocations), the payload walk (Gate/Payload), the state of a gate (Gate/State), the
--     authentication of commands (Gate/Auth), the constructor's guards (Gate/Init), rejections
--     (Gate/Denials, Gate/Reject), `evaluate` (Gate/Evaluate), `revoke` (Gate/Revoke), and sequences of
--     calls and restarts (Gate/Runs)
--
-- A child module named Spec, Safety, Keeps, Once, Durable, Effect, Match, Sound, Limits, Bounds,
-- Bounded, Context, Covered, Roundtrip, Inverse, Fresh, Ends, Outcome, Log, Entries (of the chain),
-- Tamper, Accepted, Trusted or Link holds proofs about its parent. Examples has a concrete gate, runs of it, a policy, a log, and the
-- theorems applied to it.
--
-- How the code is modelled:
--   A guard that returns a reason is an optional text, and guards in sequence are chained by `<|>`; a
--   guard that passes gives `none`. `validate_...` functions return a flag and a reason. A function that
--   may raise returns an `Outcome`.
--   A method of the gate takes the state and returns the new one with its result. The audit log of a
--   gate is the list of the arguments of each call of `AuditLog.record`, the newest first.
--   `AuditLog` and `issue_lease` give the text of an exception or the result; each call draws its random
--   identifiers and its time from an argument. Hashes are those of an arbitrary function, so what a chain
--   says of its events is said up to an event of each of two chains that differ under one hash: in the
--   material of the proof, whose fields have one order, or in the canonical text of the payload.
--   A table of SQLite is the list of its primary keys, or of its rows by key, and a transaction that
--   fails leaves it as it was; columns that are never read are left out. A restart opens the files again
--   and fills in the messages of the revoked leases, as the constructor of the store does.
--   Sets are lists, mappings are association lists, and enumerations compare by their texts.
--   Timestamps are whole microseconds with an offset from UTC; `now` of a call is an aware timestamp.
--   Floats are exact, in units of 2^-1074, since the code compares and converts them only.
--   `Runtime` has what the code takes from elsewhere: Ed25519, the dump of a message and its JSON text,
--   hashes, the texts of numbers and timestamps, random identifiers and the clock of new messages. The only
--   assumption about these is that Ed25519 accepts the signatures of a key pair (Core/Keys), in the
--   theorems on what such a pair signs.
--
-- Bounds: the walk over a payload runs on fuel of 2049 rounds, one more than the nodes that it accepts,
-- since each round counts one. `float(n)` counts bits below 2^1024 in 1024 rounds. All else is structural.
--
-- Not modelled: the field validators of pydantic (a message here is one that validated), integers of
-- more than 4300 digits, which JSON decoding refuses, `now` within seconds of the year 9999 except for
-- leases, failures of the database and of the audit log, and how `CommandGate.__init__` merges the default
-- fallback actions and the scopes of revokers, which a gate of the model is given. The gate's calls of
-- `record` are not yet connected to Core/Audit. Of audit.py, `by_correlation_id`, `replay`, its summary and
-- the writing of files; of policy.py, reading YAML and opening a database file. The demo agents, the
-- scripts and the Rust crate are outside this library.
pub mod Prelude
pub mod Core
pub mod Policy
pub mod Gate
pub mod Examples
