-- ===== src/Prelude/Text.antt =====
-- Texts: the code points, and the test `not text.strip()`.
use Prim.Native.Nat.{ℕ}
use Prim.Native.Char.{code}
use Prim.Native.String.{String, ◌++◌}
use mathlib.Core.Bool.{Bool, true, ◌&&◌, ◌||◌}
use mathlib.Core.List.{List, [], ◌∷◌}
use rclp.Prelude.Tests.{leb}

unfoldable pub codes : String → List ℕ
codes String.[] = []
codes (String.◌∷◌ c s) = code c ∷ codes s

-- The code points for which `str.isspace` holds, those that `str.strip` removes.
is_space : ℕ → Bool
is_space c =
    (leb 9 c && leb c 13)
    || (leb 28 c && leb c 32)
    || (leb 0x85 c && leb c 0x85)
    || (leb 0xa0 c && leb c 0xa0)
    || (leb 0x1680 c && leb c 0x1680)
    || (leb 0x2000 c && leb c 0x200a)
    || (leb 0x2028 c && leb c 0x2029)
    || (leb 0x202f c && leb c 0x202f)
    || (leb 0x205f c && leb c 0x205f)
    || (leb 0x3000 c && leb c 0x3000)

all_space : List ℕ → Bool
all_space [] = true
all_space (c ∷ cs) = is_space c && all_space cs

-- `not text.strip()`
unfoldable pub is_blank : String → Bool
unfolding codes all_space is_space
is_blank s = all_space (codes s)

-- An f-string, from its parts.
unfoldable pub format : List String → String
format [] = ""
format (part ∷ parts) = part ++ format parts
