-- ===== src/Core/Keys.antt =====
-- crypto.py: `DemoKeyPair`. The private key is what `Ed25519PrivateKey.sign` does with it, and the
-- public key the raw bytes of the other half.
use Prim.Native.Char.{char, IsScalar}
use rclp.Prelude.{
  Bool-cases, inl, inr, eq_iff, some_inj, sym, ℕ, ◌≡◌, refl, ◌<◌, ◌%◌, ◌∙◌, ap, true, false, String,
  List, [], ◌∷◌, arith, length, ◌==◌, codes, some,
}
use rclp.Core.Models.{Message, unsigned}
use rclp.Core.Runtime.{Runtime}
use rclp.Core.Base64.{b64, unb64, unb64_codes, all_ascii, canonical, b64decode, codes_eq}
use rclp.Core.Base64.Inverse.{AreBytes, all_ascii-b64, unb64_codes-b64}
use rclp.Core.Crypto.{canonical_json, verify_with_public_key_b64, verify_decoded}

pub small-IsScalar : (n : ℕ) → n < 128 → IsScalar n
small-IsScalar n h = ground arith

pub remainder_small : (n : ℕ) → n % 128 < 128
remainder_small n = omega arith

-- `.decode("ascii")` of codes that are all below 128.
unfoldable pub ascii_text : List ℕ → String
ascii_text [] = ""
ascii_text (c ∷ cs) =
    String.◌∷◌ (char (c % 128) (small-IsScalar (c % 128) (remainder_small c))) (ascii_text cs)

pub record DemoKeyPair : Type 0 where
  pub public_key : List ℕ
  pub private_sign : List ℕ → List ℕ

unfoldable pub public_key_b64 : DemoKeyPair → String
public_key_b64 pair = ascii_text (b64 pair.public_key)

unfoldable pub sign : Runtime → DemoKeyPair → Message → String
sign rt pair message = ascii_text (b64 (pair.private_sign (canonical_json rt message)))

codes-ascii_text : (cs : List ℕ) → all_ascii cs ≡ true → codes (ascii_text cs) ≡ cs
unfolding codes ascii_text all_ascii
codes-ascii_text [] h = refl
codes-ascii_text (c ∷ cs) h =
    let same : c % 128 ≡ c = ground arith in rw (codes-ascii_text cs (ground arith), same) refl

unb64-ascii_text : (bytes : List ℕ) → AreBytes bytes → unb64 (ascii_text (b64 bytes)) ≡ some bytes
unfolding unb64
unb64-ascii_text bytes h =
    rw (codes-ascii_text (b64 bytes) (all_ascii-b64 bytes h)) (unb64_codes-b64 bytes h)

-- A key pair of bytes whose signatures are bytes that Ed25519 accepts under its public key.
pub record IsEd25519 (rt : Runtime) (pair : DemoKeyPair) : Type 0 where
  pub key_bytes : AreBytes pair.public_key
  pub signature_size : (m : List ℕ) → length (pair.private_sign m) ≡ 64
  pub signature_bytes : (m : List ℕ) → AreBytes (pair.private_sign m)
  pub accepted : (m : List ℕ) → rt.ed25519_verify pair.public_key (pair.private_sign m) m ≡ true

-- What a key pair signs verifies against the text of its public key, as long as Ed25519 accepts its own
-- signatures, and whatever signature the message carries by then.
pub verify-sign :
    (rt : Runtime) (pair : DemoKeyPair) (signed sent : Message)
    → IsEd25519 rt pair
    → unsigned sent ≡ unsigned signed
    → verify_with_public_key_b64 rt sent (sign rt pair signed) (public_key_b64 pair) ≡ true
unfolding sign public_key_b64 verify_with_public_key_b64 verify_decoded canonical_json
verify-sign rt pair signed sent ok same =
    let m = canonical_json rt signed in
    let key = unb64-ascii_text pair.public_key ok.key_bytes in
    let signature = unb64-ascii_text (pair.private_sign m) (ok.signature_bytes m) in
    (λ i. verify_decoded rt sent (key i) (signature i))
    ∙ ap
        (λ u.
          rt.ed25519_verify pair.public_key (pair.private_sign m) (rt.json_dumps (rt.model_dump u)))
        same
    ∙ ok.accepted m

unb64_empty : unb64 "" ≡ some []
unfolding unb64 unb64_codes canonical b64decode b64 all_ascii codes codes_eq
unb64_empty = refl

text_given :
    (bytes : List ℕ) → AreBytes bytes → length bytes ≡ 64 → (ascii_text (b64 bytes) == "") ≡ false
text_given bytes h size = elim (Bool-cases (ascii_text (b64 bytes) == "")) [
  | inl y ↦
      let text : ascii_text (b64 bytes) ≡ "" = (eq_iff _ _).0 y in
      let none_left = some_inj (sym (unb64-ascii_text bytes h) ∙ ap unb64 text ∙ unb64_empty) in
      absurd (cc (sym (ap length none_left) ∙ size))
  | inr n ↦ n
]

-- A signature is not the empty text.
pub sign_given :
    (rt : Runtime) (pair : DemoKeyPair) (message : Message)
    → IsEd25519 rt pair
    → (sign rt pair message == "") ≡ false
unfolding sign
sign_given rt pair message ok =
    text_given (pair.private_sign (canonical_json rt message))
      (ok.signature_bytes (canonical_json rt message))
      (ok.signature_size (canonical_json rt message))
