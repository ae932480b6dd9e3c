-- ===== src/Core/Signer.antt =====
-- The checks that policy.py, attestation.py, fallback.py and audit.py run on the signer of a message,
-- each with its own reason codes.
use rclp.Prelude.{
  ◌≡◌, refl, ◌↔◌, Bool, true, false, not, Option, none, some, String, List, ◌==◌, arith, eq_iff,
  eq_refl, lookup, Violation, reject_if, ◌<|>◌, require,
}
use rclp.Core.Models.{Message}
use rclp.Core.Runtime.{Runtime}
use rclp.Core.Crypto.{verify_with_public_key_b64}

-- A message with the signer that it names, and whether the signed texts are over the budget.
pub record Signed : Type 0 where
  pub message : Message
  pub claimed : String
  pub authenticated : Option String
  pub signature : Option String
  pub too_large : Bool

pub record Reasons : Type 0 where
  pub no_signer : String
  pub other_signer : String
  pub no_signature : String
  pub no_key : String
  pub too_large : String
  pub bad_signature : String

module _ (rt : Runtime) (keys : List (String × String)) (reasons : Reasons) where
  unfoldable pub signature_violation : Signed → String → String → Violation
  signature_violation s signature public_key =
      reject_if s.too_large reasons.too_large
      <|> reject_if (not (verify_with_public_key_b64 rt s.message signature public_key))
          reasons.bad_signature

  unfoldable pub named_signer_violation : Signed → String → Violation
  named_signer_violation s authenticated =
      reject_if (not (authenticated == s.claimed)) reasons.other_signer
      <|> require s.signature reasons.no_signature λ signature.
        require (lookup authenticated keys) reasons.no_key (signature_violation s signature)

  unfoldable pub signer_violation : Signed → Violation
  signer_violation s = require s.authenticated reasons.no_signer (named_signer_violation s)

-- Signed, within the budget, under the key of the signer that the message names.
pub record IsSigned (rt : Runtime) (keys : List (String × String)) (s : Signed) : Type 0 where
  pub signature : String
  pub public_key : String
  pub signer : s.authenticated ≡ some s.claimed
  pub signed : s.signature ≡ some signature
  pub trusted : lookup s.claimed keys ≡ some public_key
  pub small : s.too_large ≡ false
  pub verified : verify_with_public_key_b64 rt s.message signature public_key ≡ true

module _ (rt : Runtime) (keys : List (String × String)) (reasons : Reasons) (s : Signed) where
  IsSigned-of :
      (signer signature key : Option String)
      → s.authenticated ≡ signer
      → s.signature ≡ signature
      → lookup s.claimed keys ≡ key
      → signer_violation rt keys reasons s ≡ none
      → IsSigned rt keys s
  unfolding signer_violation named_signer_violation signature_violation
  IsSigned-of none signature key d e f h = ground (arith, d)
  IsSigned-of (some a) none key d e f h = ground (arith, d, e, f, eq_iff a s.claimed)
  IsSigned-of (some a) (some g) none d e f h = ground (arith, d, e, f, eq_iff a s.claimed)
  IsSigned-of (some a) (some g) (some k) d e f h = record {
    signature = g;
    public_key = k;
    signer = ground (arith, d, e, f, eq_iff a s.claimed);
    signed = e;
    trusted = f;
    small = ground (arith, d, e, f, eq_iff a s.claimed);
    verified = ground (arith, d, e, f, eq_iff a s.claimed);
  }

  pub signer_iff : (signer_violation rt keys reasons s ≡ none) ↔ IsSigned rt keys s
  unfolding signer_violation named_signer_violation signature_violation
  signer_iff = (
    IsSigned-of s.authenticated s.signature (lookup s.claimed keys) refl refl refl,
    λ f. ground (arith, f.signer, f.signed, f.trusted, f.small, f.verified, eq_refl s.claimed),
  )
