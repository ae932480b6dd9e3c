-- ===== src/Core/Value.antt =====
-- The values of a command's payload, as JSON decoding makes them: `int` has its sign (true is
-- negative) and its magnitude.
use rclp.Prelude.{
  ℕ, ◌*◌, ◌≡◌, Bool, true, false, ◌&&◌, Option, none, some, String, List, [], ◌∷◌, ◌==◌,
  if◌then◌else◌, suc, leb,
}
use rclp.Core.Float.{
  Float, finite, float_eq, float_unit, float_of_int, float_of_int_overflow, float_limit,
}

mutual
  pub data Value : Type 0 where
    null : Value
    bool : Bool → Value
    int : Bool → ℕ → Value
    float : Float → Value
    str : String → Value
    list : Items → Value
    dict : Fields → Value

  pub data Fields : Type 0 where
    end : Fields
    field : String → Value → Fields → Fields

  pub data Items : Type 0 where
    nil : Items
    cons : Value → Items → Items

-- `payload.get(key)`
unfoldable pub get_field : String → Fields → Option Value
get_field k end = none
get_field k (field j v fs) = if j == k then some v else get_field k fs

unfoldable pub field_names : Fields → List String
field_names end = []
field_names (field k v fs) = k ∷ field_names fs

abbrev pub count_fields : Fields → ℕ
count_fields end = 0
count_fields (field k v fs) = suc (count_fields fs)

-- A number for `==`, exact also for an integer that no float holds; a bool counts as 0 or 1.
unfoldable pub numeric : Value → Option Float
unfolding float_unit
numeric (bool b) = some (finite false (if b then float_unit else 0))
numeric (int s n) = some (finite s (n * float_unit))
numeric (float x) = some x
numeric _ = none

abbrev pub both_numeric_eq : Option Float → Option Float → Bool
both_numeric_eq (some a) (some b) = float_eq a b
both_numeric_eq _ _ = false

abbrev on_some : (Value → Bool) → Option Value → Bool
on_some p none = false
on_some p (some w) = p w

-- `a == b` of Python.
unfoldable mutual
  pub value_eq : Value → Value → Bool
  value_eq null null = true
  value_eq (bool b) w = both_numeric_eq (numeric (bool b)) (numeric w)
  value_eq (int s n) w = both_numeric_eq (numeric (int s n)) (numeric w)
  value_eq (float x) w = both_numeric_eq (some x) (numeric w)
  value_eq (str s) (str t) = s == t
  value_eq (list xs) (list ys) = items_eq xs ys
  value_eq (dict fs) (dict gs) =
      fields_eq fs gs
      && leb (count_fields fs) (count_fields gs)
      && leb (count_fields gs) (count_fields fs)
  value_eq _ _ = false

  pub items_eq : Items → Items → Bool
  items_eq nil nil = true
  items_eq (cons x xs) (cons y ys) = value_eq x y && items_eq xs ys
  items_eq _ _ = false

  pub fields_eq : Fields → Fields → Bool
  fields_eq end gs = true
  fields_eq (field k v fs) gs = on_some (value_eq v) (get_field k gs) && fields_eq fs gs

-- The conversion `float(raw)` behind `isinstance(raw, bool) or not isinstance(raw, Real)`.
pub data Real : Type 0 where
  not_real : Real
  real : Float → Real
  overflow : Real

abbrev real_or_overflow : Option Float → Real
real_or_overflow none = overflow
real_or_overflow (some x) = real x

unfoldable pub to_real : Value → Real
to_real (int s n) = real_or_overflow (float_of_int s n)
to_real (float x) = real x
to_real _ = not_real

-- An integer of 2^1024 or more overflows, whatever its sign.
pub to_real_overflow : (s : Bool) (n : ℕ) → leb float_limit n ≡ true → to_real (int s n) ≡ overflow
unfolding to_real
to_real_overflow s n h = rw (float_of_int_overflow s n h)
