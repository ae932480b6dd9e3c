-- ===== src/Core/Base64/Inverse.antt =====
-- Decoding undoes encoding, for every list of bytes.
use rclp.Prelude.{
  ℕ, ◌+◌, ◌*◌, ◌/◌, ◌%◌, ◌<◌, ◌≡◌, refl, ◌∙◌, true, false, some, List, [], ◌∷◌, arith, ltb,
}
use rclp.Core.Base64.{
  digit, undigit, b64, one_byte, two_bytes, three_bytes, is_pad, b64decode, codes_eq, all_ascii,
  canonical, unb64_codes,
}

abbrev pub AreBytes : List ℕ → Type 0
AreBytes [] = Unit
AreBytes (b ∷ bytes) = (b < 256) × AreBytes bytes

undigit-digit : (v : ℕ) → v < 64 → undigit (digit v) ≡ some v
unfolding digit undigit
undigit-digit v h = ground arith

digit_ascii : (v : ℕ) → v < 64 → ltb (digit v) 128 ≡ true
unfolding digit
digit_ascii v h = ground arith

digit-is_pad : (v : ℕ) → v < 64 → is_pad (digit v) ≡ false
unfolding digit is_pad
digit-is_pad v h = ground arith

codes_eq_refl : (xs : List ℕ) → codes_eq xs xs ≡ true
unfolding codes_eq
codes_eq_refl [] = refl
codes_eq_refl (x ∷ xs) = ground (arith, codes_eq_refl xs)

-- A group whose last digit is no padding has three bytes, whatever follows.
b64decode-group :
    (p q r s : ℕ) (more : List ℕ)
    → is_pad s ≡ false
    → b64decode (p ∷ q ∷ r ∷ s ∷ more)
      ≡ three_bytes (undigit p) (undigit q) (undigit r) (undigit s) (b64decode more)
unfolding b64decode
b64decode-group p q r s [] h = ground (arith, h)
b64decode-group p q r s (m ∷ more) h = refl

-- The two low bits of a byte, and the two high ones, and so on, make up a digit each.
byte_digits :
    (a b c : ℕ)
    → a < 256
    → b < 256
    → c < 256
    → (a / 4 < 64) × (a % 4 * 16 + b / 16 < 64) × (b % 16 * 4 + c / 64 < 64) × (c % 64 < 64)
byte_digits a b c h i j = (omega arith, omega arith, omega arith, omega arith)

bytes_back :
    (a b c : ℕ)
    → a < 256
    → b < 256
    → c < 256
    → (a / 4 * 4 + (a % 4 * 16 + b / 16) / 16 ≡ a)
      × ((a % 4 * 16 + b / 16) % 16 * 16 + (b % 16 * 4 + c / 64) / 4 ≡ b)
      × ((b % 16 * 4 + c / 64) % 4 * 64 + c % 64 ≡ c)
bytes_back a b c h i j = (omega arith, omega arith, omega arith)

-- Four digits of three bytes, in front of what decodes to the rest.
three_bytes-digit :
    (a b c : ℕ) (rest : List ℕ)
    → a < 256
    → b < 256
    → c < 256
    → three_bytes
        (undigit (digit (a / 4)))
        (undigit (digit (a % 4 * 16 + b / 16)))
        (undigit (digit (b % 16 * 4 + c / 64)))
        (undigit (digit (c % 64)))
        (some rest)
      ≡ some (a ∷ b ∷ c ∷ rest)
unfolding three_bytes
three_bytes-digit a b c rest h i j =
    let (w, x, y, z) = byte_digits a b c h i j in
    let (e, f, g) = bytes_back a b c h i j in
    rw
      (
        undigit-digit (a / 4) w,
        undigit-digit (a % 4 * 16 + b / 16) x,
        undigit-digit (b % 16 * 4 + c / 64) y,
        undigit-digit (c % 64) z,
      )
      (rw (e, f, g) refl)

one_byte-digit :
    (a : ℕ)
    → a < 256
    → one_byte (undigit (digit (a / 4))) (undigit (digit (a % 4 * 16))) ≡ some (a ∷ [])
unfolding one_byte
one_byte-digit a h =
    let back : a / 4 * 4 + a % 4 * 16 / 16 ≡ a = omega arith in
    rw (undigit-digit (a / 4) (omega arith), undigit-digit (a % 4 * 16) (omega arith))
      (rw back refl)

two_bytes-digit :
    (a b : ℕ)
    → a < 256
    → b < 256
    → two_bytes
        (undigit (digit (a / 4)))
        (undigit (digit (a % 4 * 16 + b / 16)))
        (undigit (digit (b % 16 * 4)))
      ≡ some (a ∷ b ∷ [])
unfolding two_bytes
two_bytes-digit a b h i =
    let first : a / 4 * 4 + (a % 4 * 16 + b / 16) / 16 ≡ a = omega arith in
    let second : (a % 4 * 16 + b / 16) % 16 * 16 + b % 16 * 4 / 4 ≡ b = omega arith in
    rw
      (
        undigit-digit (a / 4) (omega arith),
        undigit-digit (a % 4 * 16 + b / 16) (omega arith),
        undigit-digit (b % 16 * 4) (omega arith),
      )
      (rw (first, second) refl)

b64decode-b64 : (bytes : List ℕ) → AreBytes bytes → b64decode (b64 bytes) ≡ some bytes
unfolding b64 b64decode is_pad
b64decode-b64 [] h = refl
b64decode-b64 (a ∷ []) h = one_byte-digit a h.0
b64decode-b64 (a ∷ b ∷ []) h =
    rw (digit-is_pad (b % 16 * 4) (omega arith)) (two_bytes-digit a b h.0 h.1.0)
b64decode-b64 (a ∷ b ∷ c ∷ rest) h =
    let (_, _, _, z) = byte_digits a b c h.0 h.1.0 h.1.1.0 in
    b64decode-group (digit (a / 4)) (digit (a % 4 * 16 + b / 16)) (digit (b % 16 * 4 + c / 64))
      (digit (c % 64)) (b64 rest) (digit-is_pad (c % 64) z)
    ∙ rw (b64decode-b64 rest h.1.1.1) (three_bytes-digit a b c rest h.0 h.1.0 h.1.1.0)

pub all_ascii-b64 : (bytes : List ℕ) → AreBytes bytes → all_ascii (b64 bytes) ≡ true
unfolding b64 all_ascii
all_ascii-b64 [] h = refl
all_ascii-b64 (a ∷ []) h =
    rw (digit_ascii (a / 4) (omega arith), digit_ascii (a % 4 * 16) (omega arith)) refl
all_ascii-b64 (a ∷ b ∷ []) h =
    rw
      (
        digit_ascii (a / 4) (omega arith),
        digit_ascii (a % 4 * 16 + b / 16) (omega arith),
        digit_ascii (b % 16 * 4) (omega arith),
      )
      refl
all_ascii-b64 (a ∷ b ∷ c ∷ rest) h =
    let (w, x, y, z) = byte_digits a b c h.0 h.1.0 h.1.1.0 in
    rw
      (
        digit_ascii (a / 4) w,
        digit_ascii (a % 4 * 16 + b / 16) x,
        digit_ascii (b % 16 * 4 + c / 64) y,
        digit_ascii (c % 64) z,
      )
      (all_ascii-b64 rest h.1.1.1)

-- The encoding of any bytes decodes to those bytes.
pub unb64_codes-b64 : (bytes : List ℕ) → AreBytes bytes → unb64_codes (b64 bytes) ≡ some bytes
unfolding unb64_codes canonical
unb64_codes-b64 bytes h =
    rw (all_ascii-b64 bytes h, b64decode-b64 bytes h, codes_eq_refl (b64 bytes)) refl
