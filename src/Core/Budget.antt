-- ===== src/Core/Budget.antt =====
-- `_SignedTextBudget`, the same class in leases.py, state.py, policy.py, fallback.py,
-- attestation.py, audit.py and command_gate.py: the sizes of the texts that a signature covers.
pub mod Bounds
use rclp.Prelude.{
  ℕ, ◌+◌, Bool, true, false, ◌||◌, Option, none, some, String, len, List, [], ◌∷◌, ltb,
  if◌then◌else◌,
}

abbrev pub max_signed_text_field_bytes : ℕ
max_signed_text_field_bytes = 1024

abbrev pub max_signed_text_total_bytes : ℕ
max_signed_text_total_bytes = 16384

-- `exceeded` over the values in turn, the loop that every `..._too_large` function runs;
-- `total` is the budget's `total_bytes` so far.
unfoldable pub budget_exceeded : ℕ → List (Option String) → Bool
budget_exceeded total [] = false
budget_exceeded total (none ∷ values) = budget_exceeded total values
budget_exceeded total (some text ∷ values) =
    let size = len text in
    let rest = budget_exceeded (total + size) values in
    if ltb max_signed_text_field_bytes size || ltb max_signed_text_total_bytes (total + size)
    then true
    else rest

-- `len(signature.encode("utf-8")) > ED25519_SIGNATURE_B64_MAX_TEXT_BYTES`, 4 * ((64 + 2) // 3)
unfoldable pub signature_text_too_large : Option String → Bool
signature_text_too_large none = false
signature_text_too_large (some signature) = ltb 88 (len signature)
