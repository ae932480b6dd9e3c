-- ===== src/Core/Audit/Chain/Entries.antt =====
-- What equal entries of two dictionaries say of the fields of two events.
use rclp.Prelude.{
  ℕ, ◌≡◌, refl, inl, inr, Bool, Option, none, some, String, List, [], ◌∷◌, ◌==◌, eq_iff, Bool-cases,
  some_inj,
}
use native.Mathlib.Decide.{ℕ_discrete}
use rclp.Core.Float.{Float}
use rclp.Core.Value.{Value, str, dict, list, bool, get_field}
use rclp.Core.Audit.{option_value, text_items}

String_discrete : Discrete String
String_discrete a b = elim (Bool-cases (a == b)) [
  | inl y ↦ yes ((eq_iff a b).0 y)
  | inr n ↦ no (λ e. cc (n, (eq_iff a b).1 e))
]

Float_discrete : Discrete Float
Float_discrete = hlevel ℕ_discrete

pub Value_discrete : Discrete Value
Value_discrete = hlevel (ℕ_discrete, Float_discrete, String_discrete)

pub codes_discrete : Discrete (List ℕ)
codes_discrete = hlevel ℕ_discrete

option_value_inj : (a b : Option String) → option_value a ≡ option_value b → a ≡ b
option_value_inj none none e = refl
option_value_inj none (some b) e = cc e
option_value_inj (some a) none e = cc e
option_value_inj (some a) (some b) e = cc e

text_items_inj : (a b : List String) → text_items a ≡ text_items b → a ≡ b
text_items_inj [] [] e = refl
text_items_inj [] (y ∷ b) e = cc e
text_items_inj (x ∷ a) [] e = cc e
text_items_inj (x ∷ a) (y ∷ b) e = let rest : a ≡ b = text_items_inj a b (cc e) in cc (e, rest)

-- What a dictionary has under a key, and what an equation of such entries says.
abbrev pub entry : String → Value → Option Value
entry key (dict fields) = get_field key fields
entry key _ = none

pub text_of : {a b : String} → some (str a) ≡ some (str b) → a ≡ b
text_of e = cc e

pub flag_of : {a b : Bool} → some (bool a) ≡ some (bool b) → a ≡ b
flag_of e = cc e

pub option_of : {a b : Option String} → some (option_value a) ≡ some (option_value b) → a ≡ b
option_of {a} {b} e = option_value_inj a b (some_inj e)

pub texts_of : {a b : List String} → some (list (text_items a)) ≡ some (list (text_items b)) → a ≡ b
texts_of {a} {b} e = text_items_inj a b (cc e)
