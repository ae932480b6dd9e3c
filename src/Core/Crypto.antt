-- ===== src/Core/Crypto.antt =====
-- crypto.py: the bytes that are signed, and verification against a base64 public key.
use rclp.Prelude.{ℕ, ◌≡◌, ◌≢◌, Bool, true, false, none, Option, some, String, List}
use rclp.Core.Models.{Message, unsigned}
use rclp.Core.Base64.{unb64}
use rclp.Core.Runtime.{Runtime}

unfoldable pub canonical_json : Runtime → Message → List ℕ
canonical_json rt message = rt.json_dumps (rt.model_dump (unsigned message))

-- `binascii.Error` from either decoding is a failed verification.
unfoldable pub verify_decoded : Runtime → Message → Option (List ℕ) → Option (List ℕ) → Bool
verify_decoded rt message (some key) (some signature) =
    rt.ed25519_verify key signature (canonical_json rt message)
verify_decoded rt message _ _ = false

unfoldable pub verify_with_public_key_b64 : Runtime → Message → String → String → Bool
verify_with_public_key_b64 rt message signature public_key_b64 =
    verify_decoded rt message (unb64 public_key_b64) (unb64 signature)

verify_decoded-signature :
    (rt : Runtime) (message : Message) (key signature : Option (List ℕ))
    → verify_decoded rt message key signature ≡ true
    → signature ≢ none
unfolding verify_decoded
verify_decoded-signature rt message none signature h = cc
verify_decoded-signature rt message (some k) none h = cc
verify_decoded-signature rt message (some k) (some s) h = λ e. cc e

-- A signature that verifies is base64.
pub verified-unb64 :
    (rt : Runtime) (message : Message) (signature public_key_b64 : String)
    → verify_with_public_key_b64 rt message signature public_key_b64 ≡ true
    → unb64 signature ≢ none
unfolding verify_with_public_key_b64
verified-unb64 rt message signature public_key_b64 h =
    verify_decoded-signature rt message (unb64 public_key_b64) (unb64 signature) h
