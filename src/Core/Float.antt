-- ===== src/Core/Float.antt =====
-- Python's `float` as the package uses it: values that are compared and tested with `isfinite`,
-- and the conversion `float(int)`. No float is added or multiplied anywhere in the package.
-- A finite double is a whole multiple of 2^-1074, so `finite s m` stands for m * 2^-1074 with the
-- sign `s` (true is negative), and every comparison is exact.
use rclp.Prelude.{
  ℕ, zero, suc, ◌+◌, ◌-◌, ◌*◌, ◌/◌, ◌%◌, ◌^◌, ◌≡◌, refl, ◌↔◌, Bool, true, false, not, ◌&&◌, ◌||◌,
  Option, none, some, arith, ltb, leb, if◌then◌else◌,
}

pub data Float : Type 0 where
  nan : Float
  infinite : Bool → Float
  finite : Bool → ℕ → Float

-- The number of units of 2^-1074 in 1.
unfoldable pub float_unit : ℕ
float_unit = 2 ^ 1074

-- `a < b`
unfoldable pub float_lt : Float → Float → Bool
float_lt (finite false a) (finite false b) = ltb a b
float_lt (finite true a) (finite true b) = ltb b a
float_lt (finite true a) (finite false b) = ltb 0 (a + b)
float_lt (finite false a) (finite true b) = false
float_lt (infinite true) (infinite false) = true
float_lt (infinite true) (finite _ _) = true
float_lt (finite _ _) (infinite false) = true
float_lt _ _ = false

-- `a == b`; the two zeros are equal, and NaN equals nothing.
unfoldable pub float_eq : Float → Float → Bool
float_eq (finite false a) (finite false b) = leb a b && leb b a
float_eq (finite true a) (finite true b) = leb a b && leb b a
float_eq (finite true a) (finite false b) = leb (a + b) 0
float_eq (finite false a) (finite true b) = leb (a + b) 0
float_eq (infinite false) (infinite false) = true
float_eq (infinite true) (infinite true) = true
float_eq _ _ = false

unfoldable pub isfinite : Float → Bool
isfinite (finite _ _) = true
isfinite _ = false

abbrev pub float_zero : Float
float_zero = finite false 0

-- A bound `max_value=None` or `max_value=100` on a number.
unfoldable pub within_max : Float → Option Float → Bool
within_max x none = true
within_max x (some m) = float_eq x m || float_lt x m

-- `_finite_nonnegative_number(value, max_value=...)` on a float.
unfoldable pub finite_nonnegative_number : Float → Option Float → Bool
unfolding isfinite float_lt within_max
finite_nonnegative_number x max_value =
    if not (isfinite x) || float_lt x float_zero then false else within_max x max_value

-- The integer 100 of `max_value=100`.
unfoldable pub hundred : Float
unfolding float_unit
hundred = finite false (100 * float_unit)

pub finite_nonnegative_number_iff :
    (x : Float)
    → (finite_nonnegative_number x none ≡ true)
      ↔ ((isfinite x ≡ true) × (float_lt x float_zero ≡ false))
unfolding finite_nonnegative_number
finite_nonnegative_number_iff x = ground arith

-- On finite floats the order is total.
pub float_lt_total :
    (x y : Float)
    → isfinite x ≡ true
    → isfinite y ≡ true
    → float_lt x y ≡ false
    → float_lt y x ≡ false
    → float_eq x y ≡ true
unfolding float_lt float_eq isfinite
float_lt_total x y h k p q = ground arith

pub float_lt_trans :
    (x y z : Float)
    → float_lt x y ≡ true
    → float_lt z y ≡ false
    → isfinite z ≡ true
    → float_lt x z ≡ true
unfolding float_lt isfinite
float_lt_trans x y z p q h = ground arith

-- The bits of `n`, counted by halving; 1024 rounds are enough below 2^1024.
unfoldable pub bit_length : ℕ → ℕ → ℕ
bit_length zero n = 0
bit_length (suc fuel) n = let rest = suc (bit_length fuel (n / 2)) in if ltb 0 n then rest else 0

-- 2^1024, past the last finite double.
unfoldable pub float_limit : ℕ
float_limit = 2 ^ 1024

-- Round half to even on 53 bits, in units of 2^-1074; `none` is the `OverflowError`.
unfoldable pub round_bits : ℕ → Option ℕ
unfolding bit_length float_limit
round_bits n =
    let width = bit_length 1024 n in
    let step = 2 ^ (width - 53) in
    let low = n / step in
    let rest = n % step in
    let up = ltb step (2 * rest) || (leb step (2 * rest) && ltb 0 (low % 2)) in
    let rounded = if up then (low + 1) * step else low * step in
    if leb float_limit rounded then none else some (rounded * 2 ^ 1074)

abbrev with_sign : Bool → Option ℕ → Option Float
with_sign negative none = none
with_sign negative (some m) = some (finite negative m)

-- `float(n)` of an integer with its sign; `none` is the `OverflowError`.
unfoldable pub float_of_int : Bool → ℕ → Option Float
unfolding round_bits
float_of_int negative n = with_sign negative (if leb float_limit n then none else round_bits n)

overflow_of :
    (negative : Bool) (b : Bool) (rest : Option ℕ)
    → b ≡ true
    → with_sign negative (if b then none else rest) ≡ none
overflow_of negative true rest h = refl
overflow_of negative false rest h = cc

-- An integer of 2^1024 or more has no float.
pub float_of_int_overflow :
    (negative : Bool) (n : ℕ) → leb float_limit n ≡ true → float_of_int negative n ≡ none
float_of_int_overflow negative n h =
    unfold float_of_int in overflow_of negative (leb float_limit n) (round_bits n) h

pub isfinite-of_wellformed :
    (x : Float) (m : Option Float) → finite_nonnegative_number x m ≡ true → isfinite x ≡ true
unfolding finite_nonnegative_number
isfinite-of_wellformed x m h = ground arith
