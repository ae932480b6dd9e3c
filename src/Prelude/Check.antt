-- ===== src/Prelude/Check.antt =====
-- Chains of guards: `if test: return reason`, where `none` is "no violation".
use Prim.Native.String.{String}
use mathlib.Core.Path.{◌≡◌, refl}
use mathlib.Core.Logic.{◌↔◌, ◌⊎◌, inl, inr}
use mathlib.Core.Bool.{Bool, true, false}
use mathlib.Core.Option.{Option, none, some}
use native.Mathlib.Omega.{arith}

-- The reason of a rejection, or nothing.
abbrev pub Violation : Type 0
Violation = Option String

-- `if test: return reason`
abbrev pub reject_if : Bool → String → Violation
reject_if true reason = some reason
reject_if false reason = none

-- The first violation of two guards wins.
infixr 20 ◌<|>◌
abbrev pub ◌<|>◌ : Violation → Violation → Violation
some reason <|> rest = some reason
none <|> rest = rest

-- `if value is None: return reason`, and the rest of the guards over the value.
abbrev pub require {ℓ} : {A : Type ℓ} → Option A → String → (A → Violation) → Violation
require none reason rest = some reason
require (some a) reason rest = rest a

pub <|>-none_iff : (a b : Violation) → ((a <|> b) ≡ none) ↔ ((a ≡ none) × (b ≡ none))
<|>-none_iff a b = ground arith

pub reject_if-none_iff : (b : Bool) (r : String) → (reject_if b r ≡ none) ↔ (b ≡ false)
reject_if-none_iff b r = ground arith

pub require-none_iff {ℓ} :
    {A : Type ℓ} (o : Option A) (r : String) (rest : A → Violation)
    → (require o r rest ≡ none) ↔ ((a : A) × (o ≡ some a) × (rest a ≡ none))
require-none_iff none r rest = (λ h. cc, λ h. cc (h.1))
require-none_iff (some a) r rest = (λ h. (a, refl, h), λ h. cc (h.1, h.2))

-- `validate_...` functions return a flag and a reason; a violation is a failing pair.
abbrev pub Verdict : Type 0
Verdict = Bool × String

-- `if reason := violation: return False, reason`
infixr 15 ◌or_else◌
abbrev pub ◌or_else◌ : Violation → Verdict → Verdict
some reason or_else rest = (false, reason)
none or_else rest = rest

pub or_else-true_iff :
    (v : Violation) (rest : Verdict) → ((v or_else rest).0 ≡ true) ↔ ((v ≡ none) × (rest.0 ≡ true))
or_else-true_iff v rest = ground arith

-- `raise ValueError(message)` at a violation, and otherwise the result.
abbrev pub raise_or {ℓ} : {A : Type ℓ} → Violation → A → String ⊎ A
raise_or none a = inr a
raise_or (some message) a = inl message

pub raise_or-inr {ℓ} :
    {A : Type ℓ} (v : Violation) (a b : A) → raise_or v a ≡ inr b → (v ≡ none) × (a ≡ b)
raise_or-inr none a b h = (refl, cc h)
raise_or-inr (some m) a b h = cc h
