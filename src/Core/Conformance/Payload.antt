-- ===== src/Core/Conformance/Payload.antt =====
-- Which payloads a lease lets through, and when the check raises.
use rclp.Prelude.{
  ℕ, leb, contains, ◌≡◌, ◌⊎◌, inl, inr, subst, refl, Bool, true, false, Option, none, some, String,
  arith,
}
use rclp.Core.Float.{
  Float, float_lt, float_zero, isfinite, finite_nonnegative_number, float_limit, float_eq,
}
use rclp.Core.Value.{
  Value, Fields, field, end, to_real_overflow, get_field, count_fields, Real, not_real, real,
  overflow, to_real, field_names, numeric, both_numeric_eq, value_eq,
}
use rclp.Core.Models.{CapabilityLease}
use rclp.Core.Conformance.{
  returns, raises, has_unsupported, speeds_conflict, raw_speed, present, speed_verdict,
  limited_speed, speed_checks, payload_checks, validate_command_payload_against_constraints,
}

-- Numbers of one value, exactly: as an integer has every digit, also those that no float holds.
pub record IsSameNumber (v w : Value) : Type 0 where
  pub left : Float
  pub right : Float
  pub left_number : numeric v ≡ some left
  pub right_number : numeric w ≡ some right
  pub equal : float_eq left right ≡ true

-- The payload asks for a speed under one of its two fields or, as one number, under both: with both, what is
-- under "max_speed_mps" is an integer or a float, and what is under "speed_mps" is a number (or a Boolean, as 0
-- or 1) equal to it. As a float it is finite and from 0 up to the limit.
pub record AsksAtMost (payload : Fields) (limit : Float) : Type 0 where
  pub raw : Value
  pub speed : Float
  pub asked :
      raw_speed (get_field "max_speed_mps" payload) (get_field "speed_mps" payload) ≡ some raw
  pub number : to_real raw ≡ real speed
  pub finite_speed : isfinite speed ≡ true
  pub nonnegative : float_lt speed float_zero ≡ false
  pub under : float_lt limit speed ≡ false
  pub first : (v : Value) → get_field "max_speed_mps" payload ≡ some v → v ≡ raw
  pub second : (v : Value) → get_field "speed_mps" payload ≡ some v → (v ≡ raw) ⊎ IsSameNumber raw v

speed_verdict-true :
    (limit : Float) (r : Real) (reason : String)
    → speed_verdict limit r ≡ returns (true, reason)
    → (speed : Float) × (r ≡ real speed)
      × (isfinite speed ≡ true)
      × (float_lt speed float_zero ≡ false)
      × (float_lt limit speed ≡ false)
unfolding speed_verdict
speed_verdict-true limit not_real reason h = cc
speed_verdict-true limit overflow reason h = cc
speed_verdict-true limit (real s) reason h = (s, refl, ground arith, ground arith, ground arith)

both_numeric_eq-true :
    (v w : Value) (a b : Option Float)
    → numeric v ≡ a
    → numeric w ≡ b
    → both_numeric_eq a b ≡ true
    → IsSameNumber v w
both_numeric_eq-true v w none b e f h = cc h
both_numeric_eq-true v w (some x) none e f h = cc h
both_numeric_eq-true v w (some x) (some y) e f h = record {
  left = x;
  right = y;
  left_number = e;
  right_number = f;
  equal = h;
}

-- A value that converts to a float, and one that equals it, are numbers.
IsSameNumber-of :
    (v w : Value) (speed : Float) → to_real v ≡ real speed → value_eq v w ≡ true → IsSameNumber v w
unfolding to_real value_eq numeric
IsSameNumber-of (Value.int s n) w speed number h =
    both_numeric_eq-true (Value.int s n) w _ _ refl refl h
IsSameNumber-of (Value.float x) w speed number h =
    both_numeric_eq-true (Value.float x) w _ _ refl refl h
IsSameNumber-of Value.null w speed number h = cc number
IsSameNumber-of (Value.bool b) w speed number h = cc number
IsSameNumber-of (Value.str s) w speed number h = cc number
IsSameNumber-of (Value.list xs) w speed number h = cc number
IsSameNumber-of (Value.dict fs) w speed number h = cc number

present-some : (v raw : Value) → present (some v) ≡ some raw → v ≡ raw
unfolding present
present-some Value.null raw e = cc e
present-some (Value.bool b) raw e = cc e
present-some (Value.int s n) raw e = cc e
present-some (Value.float x) raw e = cc e
present-some (Value.str s) raw e = cc e
present-some (Value.list xs) raw e = cc e
present-some (Value.dict fs) raw e = cc e

first_raw : (a b : Option Value) (raw v : Value) → raw_speed a b ≡ some raw → a ≡ some v → v ≡ raw
unfolding raw_speed
first_raw none b raw v e f = cc f
first_raw (some w) b raw v e f = let same = present-some w raw e in cc (f, same)

second_raw :
    (a b : Option Value) (raw v : Value) (speed : Float)
    → raw_speed a b ≡ some raw
    → to_real raw ≡ real speed
    → speeds_conflict a b ≡ false
    → b ≡ some v
    → (v ≡ raw) ⊎ IsSameNumber raw v
unfolding raw_speed speeds_conflict
second_raw none none raw v speed e number agree f = cc f
second_raw none (some w) raw v speed e number agree f =
    let same = present-some w raw e in inl (cc (f, same))
second_raw (some u) none raw v speed e number agree f = cc f
second_raw (some u) (some w) raw v speed e number agree f =
    let same : u ≡ raw = present-some u raw e in
    let own : w ≡ v = cc f in
    inr (
      IsSameNumber-of raw v speed number (
        subst (λ x. value_eq x v ≡ true) same
          (subst (λ y. value_eq u y ≡ true) own (ground (arith, agree)))))

limited_speed-true :
    (payload : Fields) (limit : Float) (reason : String) (raw : Option Value)
    → raw_speed (get_field "max_speed_mps" payload) (get_field "speed_mps" payload) ≡ raw
    → speeds_conflict (get_field "max_speed_mps" payload) (get_field "speed_mps" payload) ≡ false
    → limited_speed limit raw ≡ returns (true, reason)
    → AsksAtMost payload limit
unfolding limited_speed
limited_speed-true payload limit reason none e agree h = cc h
limited_speed-true payload limit reason (some raw) e agree h =
    let (s, number, fin, nonneg, under) = speed_verdict-true limit (to_real raw) reason h in
    record {
      raw = raw;
      speed = s;
      asked = e;
      number = number;
      finite_speed = fin;
      nonnegative = nonneg;
      under = under;
      first = λ v. first_raw _ _ raw v e;
      second = λ v. second_raw _ _ raw v s e number agree;
    }

-- A payload that passes under a limit asks for a speed, as one number if it stands under both of the fields
-- for it, that as a float is finite and from 0 up to the limit; under no limit the payload is empty; and it
-- has no field that is not supported.
pub payload_accepted :
    (lease : CapabilityLease) (payload : Fields) (reason : String)
    → validate_command_payload_against_constraints lease (some payload) ≡ returns (true, reason)
    → ((limit : Float) → lease.constraints.max_speed_mps ≡ some limit → AsksAtMost payload limit)
      × (lease.constraints.max_speed_mps ≡ none → count_fields payload ≡ 0)
      × (has_unsupported (field_names payload) ≡ false)
unfolding validate_command_payload_against_constraints payload_checks speed_checks
payload_accepted lease payload reason h = (
  λ limit e. limited_speed-true payload limit reason _ refl (ground (arith, e)) (ground (arith, e)),
  λ e. ground (arith, e),
  ground arith,
)

speed_verdict-reason :
    (limit : Float) (r : Real) (reason : String)
    → speed_verdict limit r ≡ returns (true, reason)
    → reason ≡ "LEASE_VALID"
unfolding speed_verdict
speed_verdict-reason limit not_real reason h = cc
speed_verdict-reason limit overflow reason h = cc
speed_verdict-reason limit (real s) reason h = ground arith

limited_speed-reason :
    (limit : Float) (raw : Option Value) (reason : String)
    → limited_speed limit raw ≡ returns (true, reason)
    → reason ≡ "LEASE_VALID"
unfolding limited_speed
limited_speed-reason limit none reason h = cc
limited_speed-reason limit (some raw) reason h = speed_verdict-reason limit (to_real raw) reason h

speed_checks-reason :
    (limit : Option Float) (payload : Fields) (reason : String)
    → speed_checks limit payload ≡ returns (true, reason)
    → reason ≡ "LEASE_VALID"
unfolding speed_checks
speed_checks-reason none payload reason h = ground arith
speed_checks-reason (some limit) payload reason h =
    limited_speed-reason limit
      (raw_speed (get_field "max_speed_mps" payload) (get_field "speed_mps" payload)) reason
      (ground arith)

pub payload-reason :
    (lease : CapabilityLease) (payload : Option Fields) (reason : String)
    → validate_command_payload_against_constraints lease payload ≡ returns (true, reason)
    → reason ≡ "LEASE_VALID"
unfolding validate_command_payload_against_constraints payload_checks
payload-reason lease none reason h = cc
payload-reason lease (some payload) reason h =
    speed_checks-reason lease.constraints.max_speed_mps payload reason (ground arith)

-- Under a speed limit, a payload with one speed that is an integer of 2^1024 or more does not get
-- a verdict: `float(raw_speed)` raises.
pub payload_raises :
    (lease : CapabilityLease) (limit : Float) (negative : Bool) (n : ℕ)
    → lease.constraints.max_speed_mps ≡ some limit
    → finite_nonnegative_number limit none ≡ true
    → leb float_limit n ≡ true
    → validate_command_payload_against_constraints lease
        (some (field "speed_mps" (Value.int negative n) end))
      ≡ raises "OverflowError"
unfolding validate_command_payload_against_constraints payload_checks speed_checks has_unsupported
    field_names get_field limited_speed raw_speed speeds_conflict speed_verdict contains present
payload_raises lease limit negative n e f h =
    rw (e, f, get_field) (rw (to_real_overflow negative n h))
