-- ===== src/Examples/CoreWitnesses.antt =====
-- The theorems about leases, states, payloads and texts on concrete messages.
use rclp.Prelude.{
  arith, ◌≡◌, ◌↔◌, ◌≤◌, ◌^◌, refl, true, false, none, some, [], ◌∷◌, lookup, leb, codes,
}
use rclp.Core.Float.{
  Float, finite, float_lt, finite_nonnegative_number, isfinite, within_max, float_limit,
}
use rclp.Core.Value.{Value, end, field, field_names, count_fields}
use rclp.Core.Time.{aware}
use rclp.Core.Budget.{budget_exceeded, max_signed_text_total_bytes}
use rclp.Core.Budget.Bounds.{budget_iff, FieldsFit, total_bytes}
use rclp.Core.Base64.{
  unb64, unb64_codes, b64, digit, undigit, one_byte, two_bytes, three_bytes, is_pad, b64decode,
  codes_eq, all_ascii, canonical,
}
use rclp.Core.Base64.Inverse.{AreBytes, unb64_codes-b64}
use rclp.Core.Leases.{lease_time_violation, capability_constraint_bound_violation}
use rclp.Core.Leases.Spec.{IsInForce, lease_time_iff, MeetsBounds, bounds_iff}
use rclp.Core.State.{state_auth_violation}
use rclp.Core.State.Spec.{IsAuthentic, state_auth_iff}
use rclp.Core.Conformance.{
  returns, raises, lease_state_violation, validate_command_payload_against_constraints,
  has_unsupported,
}
use rclp.Core.Conformance.Match.{Supports, lease_state_iff}
use rclp.Core.Conformance.Payload.{AsksAtMost, payload_accepted, payload_raises}
use rclp.Core.Conformance.Validate.{validate_lease_for_command}
use rclp.Core.Conformance.Validate.Sound.{Authorizes, validate_iff}
use rclp.Core.Conformance.Validate.Limits.{
  HasPolicy, IsWithinPolicy, accepted_network, accepted_speed,
}
use rclp.Gate.Evaluate.{use_of_command}
use rclp.Examples.{
  runtime, config, command, payload, lease, network, robot_state, requirement, bounds, speed_limit,
  clock_time,
}
use rclp.Examples.Runs.{lease_accepted, payload_passes}

validate_iff_example :
    (validate_lease_for_command runtime config
        (some lease)
        (use_of_command command)
        (some robot_state)
        []
        (clock_time 5)
      ≡ returns (true, "LEASE_VALID"))
    ↔ Authorizes runtime config lease (use_of_command command) (some robot_state) [] (clock_time 5)
validate_iff_example =
    validate_iff runtime config lease (use_of_command command) (some robot_state) [] (clock_time 5)

policy : HasPolicy config "remote_assist" requirement bounds
unfolding lookup
policy = record {
  requirements = ("remote_assist", requirement) ∷ [];
  all_bounds = ("remote_assist", bounds) ∷ [];
  required = refl;
  requirement_found = refl;
  bounded = refl;
  bounds_found = refl;
}

accepted_network_example : IsWithinPolicy network bounds
accepted_network_example =
    accepted_network runtime config lease (use_of_command command) robot_state [] (clock_time 5)
      policy refl lease_accepted

accepted_speed_example : AsksAtMost payload (finite false (2 ^ 1076))
accepted_speed_example =
    accepted_speed runtime config lease (use_of_command command) payload (some robot_state) []
      (clock_time 5) policy refl refl lease_accepted (finite false (2 ^ 1076)) refl

payload_accepted_example :
    ((limit : Float) → lease.constraints.max_speed_mps ≡ some limit → AsksAtMost payload limit)
    × (lease.constraints.max_speed_mps ≡ none → count_fields payload ≡ 0)
    × (has_unsupported (field_names payload) ≡ false)
payload_accepted_example = payload_accepted lease payload "LEASE_VALID" payload_passes

speed_limit_finite : finite_nonnegative_number speed_limit none ≡ true
unfolding finite_nonnegative_number isfinite within_max float_lt
speed_limit_finite = refl

huge : leb float_limit (2 ^ 1024) ≡ true
unfolding float_limit
huge = refl

payload_raises_example :
    validate_command_payload_against_constraints lease
      (some (field "speed_mps" (Value.int false (2 ^ 1024)) end))
    ≡ raises "OverflowError"
payload_raises_example =
    payload_raises lease speed_limit false (2 ^ 1024) refl speed_limit_finite huge

lease_time_iff_example :
    (lease_time_violation lease (aware (clock_time 5)) 600 600 30 ≡ none)
    ↔ IsInForce lease.issued_at lease.expires_at (clock_time 5) 600 600 30
lease_time_iff_example = lease_time_iff lease (clock_time 5) 600 600 30

bounds_iff_example :
    (capability_constraint_bound_violation lease config.capability_constraint_bounds ≡ none)
    ↔ MeetsBounds lease config.capability_constraint_bounds
bounds_iff_example = bounds_iff lease config.capability_constraint_bounds

state_auth_iff_example :
    (state_auth_violation runtime (("edge-1", "AAAA") ∷ []) robot_state ("robot_id" ∷ []) ≡ none)
    ↔ IsAuthentic runtime (("edge-1", "AAAA") ∷ []) robot_state ("robot_id" ∷ [])
state_auth_iff_example =
    state_auth_iff runtime (("edge-1", "AAAA") ∷ []) robot_state ("robot_id" ∷ [])

lease_state_iff_example :
    (lease_state_violation lease robot_state ≡ none) ↔ Supports lease robot_state
lease_state_iff_example = lease_state_iff lease robot_state

budget_iff_example : (budget_exceeded 0 (some "lease-1" ∷ none ∷ []) ≡ false) ↔ (
    FieldsFit (some "lease-1" ∷ none ∷ [])
    × (total_bytes (some "lease-1" ∷ none ∷ []) ≤ max_signed_text_total_bytes))
budget_iff_example = budget_iff (some "lease-1" ∷ none ∷ [])

zeros_decode : unb64 "AAAA" ≡ some (0 ∷ 0 ∷ 0 ∷ [])
unfolding unb64 unb64_codes b64 digit undigit one_byte two_bytes three_bytes is_pad b64decode
    codes_eq all_ascii canonical codes
zeros_decode = refl

small_bytes : AreBytes (1 ∷ 2 ∷ 255 ∷ 0 ∷ [])
small_bytes = (omega arith, (omega arith, (omega arith, (omega arith, tt))))

unb64_codes-b64_example : unb64_codes (b64 (1 ∷ 2 ∷ 255 ∷ 0 ∷ [])) ≡ some (1 ∷ 2 ∷ 255 ∷ 0 ∷ [])
unb64_codes-b64_example = unb64_codes-b64 (1 ∷ 2 ∷ 255 ∷ 0 ∷ []) small_bytes
