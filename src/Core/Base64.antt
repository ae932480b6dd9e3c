-- ===== src/Core/Base64.antt =====
-- crypto.py `b64` and `unb64`: URL-safe base64 over lists of bytes, and the canonical check.
pub mod Roundtrip
pub mod Inverse
use rclp.Prelude.{
  ℕ, ◌+◌, ◌-◌, ◌*◌, ◌/◌, ◌%◌, Bool, true, false, ◌&&◌, ◌||◌, Option, none, some, List, [], ◌∷◌, leb,
  ltb, if◌then◌else◌, String, codes,
}

-- The code of a digit of the URL-safe alphabet.
unfoldable pub digit : ℕ → ℕ
digit v =
    if ltb v 26
    then b'A' + v
    else if ltb v 52
    then b'a' + (v - 26)
    else if ltb v 62
    then b'0' + (v - 52)
    else if ltb v 63
    then b'-'
    else b'_'

-- The value of a digit; `altchars=b"-_"` adds to the standard alphabet, which stays accepted.
unfoldable pub undigit : ℕ → Option ℕ
undigit c =
    if leb b'A' c && leb c b'Z'
    then some (c - b'A')
    else if leb b'a' c && leb c b'z'
    then some (c - b'a' + 26)
    else if leb b'0' c && leb c b'9'
    then some (c - b'0' + 52)
    else if (leb b'-' c && leb c b'-') || (leb b'+' c && leb c b'+')
    then some 62
    else if (leb b'_' c && leb c b'_') || (leb b'/' c && leb c b'/')
    then some 63
    else none

-- `b64`: `base64.urlsafe_b64encode`, three bytes to four digits, with padding.
unfoldable pub b64 : List ℕ → List ℕ
b64 [] = []
b64 (a ∷ []) = digit (a / 4) ∷ digit (a % 4 * 16) ∷ b'=' ∷ b'=' ∷ []
b64 (a ∷ b ∷ []) = digit (a / 4) ∷ digit (a % 4 * 16 + b / 16) ∷ digit (b % 16 * 4) ∷ b'=' ∷ []
b64 (a ∷ b ∷ c ∷ rest) =
    digit (a / 4)
    ∷ digit (a % 4 * 16 + b / 16)
    ∷ digit (b % 16 * 4 + c / 64)
    ∷ digit (c % 64)
    ∷ b64 rest

-- One, two or three bytes of a group of digits.
unfoldable pub one_byte : Option ℕ → Option ℕ → Option (List ℕ)
one_byte (some p) (some q) = some ((p * 4 + q / 16) ∷ [])
one_byte _ _ = none

unfoldable pub two_bytes : Option ℕ → Option ℕ → Option ℕ → Option (List ℕ)
two_bytes (some p) (some q) (some r) = some ((p * 4 + q / 16) ∷ (q % 16 * 16 + r / 4) ∷ [])
two_bytes _ _ _ = none

unfoldable pub three_bytes :
    Option ℕ → Option ℕ → Option ℕ → Option ℕ → Option (List ℕ) → Option (List ℕ)
three_bytes (some p) (some q) (some r) (some s) (some rest) =
    some ((p * 4 + q / 16) ∷ (q % 16 * 16 + r / 4) ∷ (r % 4 * 64 + s) ∷ rest)
three_bytes _ _ _ _ _ = none

unfoldable pub is_pad : ℕ → Bool
is_pad c = leb b'=' c && leb c b'='

-- `base64.b64decode(encoded, altchars=b"-_", validate=True)`; `none` is `binascii.Error`.
unfoldable pub b64decode : List ℕ → Option (List ℕ)
b64decode [] = some []
b64decode (p ∷ q ∷ r ∷ s ∷ []) =
    if is_pad r && is_pad s
    then one_byte (undigit p) (undigit q)
    else if is_pad s
    then two_bytes (undigit p) (undigit q) (undigit r)
    else three_bytes (undigit p) (undigit q) (undigit r) (undigit s) (some [])
b64decode (p ∷ q ∷ r ∷ s ∷ more) =
    three_bytes (undigit p) (undigit q) (undigit r) (undigit s) (b64decode more)
b64decode _ = none

unfoldable pub codes_eq : List ℕ → List ℕ → Bool
codes_eq [] [] = true
codes_eq (x ∷ xs) (y ∷ ys) = leb x y && leb y x && codes_eq xs ys
codes_eq _ _ = false

unfoldable pub all_ascii : List ℕ → Bool
all_ascii [] = true
all_ascii (c ∷ cs) = ltb c 128 && all_ascii cs

-- The bytes come back only if they encode to the text that was given.
unfoldable pub canonical : Option (List ℕ) → List ℕ → Option (List ℕ)
canonical none encoded = none
canonical (some bytes) encoded = if codes_eq (b64 bytes) encoded then some bytes else none

-- `unb64` on the codes of the text; `none` is `binascii.Error`.
unfoldable pub unb64_codes : List ℕ → Option (List ℕ)
unb64_codes encoded = if all_ascii encoded then canonical (b64decode encoded) encoded else none

unfoldable pub unb64 : String → Option (List ℕ)
unb64 text = unb64_codes (codes text)
