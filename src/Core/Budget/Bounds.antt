-- ===== src/Core/Budget/Bounds.antt =====
-- The loop of `_SignedTextBudget` against the sizes of the whole list.
use rclp.Prelude.{
  ℕ, ◌+◌, ◌≤◌, ◌≡◌, ◌↔◌, false, Option, none, some, String, len, List, [], ◌∷◌, arith,
}
use rclp.Core.Budget.{budget_exceeded, max_signed_text_field_bytes, max_signed_text_total_bytes}

-- The bytes of all the texts that are there.
pub total_bytes : List (Option String) → ℕ
total_bytes [] = 0
total_bytes (none ∷ values) = total_bytes values
total_bytes (some text ∷ values) = len text + total_bytes values

abbrev pub FieldsFit : List (Option String) → Type 0
FieldsFit [] = Unit
FieldsFit (none ∷ values) = FieldsFit values
FieldsFit (some text ∷ values) = (len text ≤ max_signed_text_field_bytes) × FieldsFit values

budget_sound :
    (total : ℕ) (values : List (Option String))
    → total ≤ max_signed_text_total_bytes
    → budget_exceeded total values ≡ false
    → FieldsFit values × (total + total_bytes values ≤ max_signed_text_total_bytes)
unfolding budget_exceeded total_bytes
budget_sound total [] h e = (tt, omega arith)
budget_sound total (none ∷ values) h e = budget_sound total values h e
budget_sound total (some text ∷ values) h e =
    let ih = budget_sound (total + len text) values in ground (arith, ih)

budget_complete :
    (total : ℕ) (values : List (Option String))
    → FieldsFit values
    → total + total_bytes values ≤ max_signed_text_total_bytes
    → budget_exceeded total values ≡ false
unfolding budget_exceeded total_bytes
budget_complete total [] f h = ground arith
budget_complete total (none ∷ values) f h = budget_complete total values f h
budget_complete total (some text ∷ values) f h =
    ground (arith, budget_complete (total + len text) values f.1)

-- The budget passes exactly when every text has at most 1024 bytes and all together at most 16384.
pub budget_iff :
    (values : List (Option String))
    → (budget_exceeded 0 values ≡ false)
      ↔ (FieldsFit values × (total_bytes values ≤ max_signed_text_total_bytes))
budget_iff values = (
  λ e. let fits = budget_sound 0 values (omega arith) e in (fits.0, omega (arith, fits.1)),
  λ f. budget_complete 0 values f.0 (omega (arith, f.1)),
)
