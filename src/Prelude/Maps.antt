-- ===== src/Prelude/Maps.antt =====
-- Sets of texts as lists, mappings keyed by text as association lists, and native lengths.
use Prim.Native.Nat.{ℕ, suc}
use Prim.Native.String.{String}
use mathlib.Core.Path.{◌≡◌, refl}
use mathlib.Core.Logic.{◌↔◌}
use mathlib.Core.Bool.{Bool, true, false, ◌||◌}
use mathlib.Core.Option.{Option, none, some}
use mathlib.Core.List.{List, [], ◌∷◌}
use native.Mathlib.Omega.{arith}
use text.Mathlib.Text.{◌==◌}
use text.Mathlib.TextEquality.{eq_iff}
use rclp.Prelude.Tests.{if◌then◌else◌}

-- `value in collection`
unfoldable pub contains : String → List String → Bool
contains a [] = false
contains a (x ∷ xs) = a == x || contains a xs

-- `set(small).issubset(big)`
unfoldable pub subset : List String → List String → Bool
subset [] big = true
subset (x ∷ xs) big = if contains x big then subset xs big else false

module _ {ℓ} {V : Type ℓ} where
  -- `mapping.get(key)`
  unfoldable pub lookup : (key : String) (mapping : List (String × V)) → Option V
  lookup key [] = none
  lookup key ((name, value) ∷ entries) =
      let later = lookup key entries in if name == key then some value else later

  -- `mapping[key] = value`
  unfoldable pub insert :
      (key : String) (value : V) (mapping : List (String × V)) → List (String × V)
  insert key value [] = (key, value) ∷ []
  insert key value ((name, old) ∷ entries) =
      let later = insert key value entries in
      if name == key then (name, value) ∷ entries else (name, old) ∷ later

  -- What a lookup finds after an insert.
  pub lookup-insert :
      (key asked : String) (value : V) (mapping : List (String × V))
      → lookup asked (insert key value mapping)
        ≡ (if key == asked then some value else lookup asked mapping)
  unfolding lookup insert
  lookup-insert key asked value [] = refl
  lookup-insert key asked value ((name, old) ∷ entries) =
      let later = lookup-insert key asked value entries in
      ground (arith, later, eq_iff name asked, eq_iff name key, eq_iff key asked)

-- `set(mapping)`: the keys.
unfoldable pub keys {ℓ} : {V : Type ℓ} → List (String × V) → List String
keys [] = []
keys ((k, v) ∷ m) = k ∷ keys m

pub contains-keys_iff {ℓ} :
    {V : Type ℓ} (k : String) (m : List (String × V))
    → (contains k (keys m) ≡ false) ↔ (lookup k m ≡ none)
unfolding contains keys lookup
contains-keys_iff k [] = ground arith
contains-keys_iff k ((j, v) ∷ m) = ground (arith, contains-keys_iff k m, eq_iff j k, eq_iff k j)

module _ {ℓ} {A : Type ℓ} where
  abbrev pub length : List A → ℕ
  length [] = 0
  length (x ∷ xs) = suc (length xs)

  abbrev pub is_empty : List A → Bool
  is_empty [] = true
  is_empty (x ∷ xs) = false
