-- ===== src/Core/Base64/Roundtrip.antt =====
-- The canonical form: what decodes is the encoding of its bytes.
use rclp.Prelude.{ℕ, ◌≡◌, refl, sym, ◌∙◌, true, some, List, [], ◌∷◌, arith, String, codes}
use rclp.Core.Base64.{b64, codes_eq, canonical, unb64_codes, unb64}

codes_eq_sound : (xs ys : List ℕ) → codes_eq xs ys ≡ true → xs ≡ ys
unfolding codes_eq
codes_eq_sound [] [] h = refl
codes_eq_sound [] (y ∷ ys) h = cc
codes_eq_sound (x ∷ xs) [] h = cc
codes_eq_sound (x ∷ xs) (y ∷ ys) h = ground (arith, codes_eq_sound xs ys)

-- A text that decodes is the encoding of its bytes.
unb64_codes-canonical : (text bytes : List ℕ) → unb64_codes text ≡ some bytes → b64 bytes ≡ text
unfolding unb64_codes canonical
unb64_codes-canonical text bytes h = ground (arith, codes_eq_sound (b64 bytes) text)

-- Two texts that decode to the same bytes have the same code points: a signature has one spelling.
pub unb64_unique :
    (s t : String) (bytes : List ℕ)
    → unb64 s ≡ some bytes
    → unb64 t ≡ some bytes
    → codes s ≡ codes t
unfolding unb64
unb64_unique s t bytes p q =
    sym (unb64_codes-canonical (codes s) bytes p) ∙ unb64_codes-canonical (codes t) bytes q
