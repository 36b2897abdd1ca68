-- ===== src/Base/Texts.antt =====
-- Go strings, as the runes that `range` reads from them: a code point, or a byte that is not part of
-- valid UTF-8. What the source uses of the packages strings, unicode and unicode/utf8.
use Prim.Native.Nat.{ℕ}
use mathlib.Core.Path.{◌≡◌}
use mathlib.Core.Logic.{◌↔◌}
use mathlib.Core.Bool.{Bool, true, false, not, ◌&&◌, ◌||◌}
use mathlib.Core.List.{List, [], ◌∷◌, reverse}
use native.Mathlib.Omega.{arith}
use vfx.Base.Tests.{leb, ◌==◌, if◌then◌else◌}
use vfx.Base.Lists.{length, any}

pub data Rune : Type 0 where
  point : ℕ → Rune
  bad_byte : ℕ → Rune

abbrev pub Text : Type 0
Text = List Rune

-- utf8.RuneCountInString
abbrev pub rune_count : Text → ℕ
rune_count t = length t

abbrev pub is_bad : Rune → Bool
is_bad (point c) = false
is_bad (bad_byte b) = true

-- utf8.ValidString
abbrev pub valid_string : Text → Bool
valid_string t = not (any is_bad t)

-- unicode.IsSpace
abbrev pub space_code : ℕ → Bool
space_code c =
    (leb 0x09 c && leb c 0x0d)
    || c == 0x20
    || c == 0x85
    || c == 0xa0
    || c == 0x1680
    || (leb 0x2000 c && leb c 0x200a)
    || c == 0x2028
    || c == 0x2029
    || c == 0x202f
    || c == 0x205f
    || c == 0x3000

unfoldable pub is_space : Rune → Bool
is_space (point c) = space_code c
is_space (bad_byte b) = false

-- unicode.IsControl
unfoldable pub is_control : Rune → Bool
is_control (point c) = leb c 0x1f || (leb 0x7f c && leb c 0x9f)
is_control (bad_byte b) = false

unfoldable pub trim_left : Text → Text
trim_left [] = []
trim_left (r ∷ rs) = let rest = trim_left rs in if is_space r then rest else r ∷ rs

-- strings.TrimSpace
unfoldable pub trim_space : Text → Text
unfolding trim_left
trim_space t = reverse (trim_left (reverse (trim_left t)))

abbrev pub rune_eq : Rune → Rune → Bool
rune_eq (point a) (point b) = a == b
rune_eq (bad_byte a) (bad_byte b) = a == b
rune_eq (point a) (bad_byte b) = false
rune_eq (bad_byte a) (point b) = false

pub rune_eq_iff : (a b : Rune) → (rune_eq a b ≡ true) ↔ (a ≡ b)
rune_eq_iff (point a) (point b) = ground arith
rune_eq_iff (bad_byte a) (bad_byte b) = ground arith
rune_eq_iff (point a) (bad_byte b) = ground arith
rune_eq_iff (bad_byte a) (point b) = ground arith

unfoldable pub text_eq : Text → Text → Bool
text_eq [] [] = true
text_eq [] (s ∷ t) = false
text_eq (r ∷ rs) [] = false
text_eq (r ∷ rs) (s ∷ ss) = rune_eq r s && text_eq rs ss

pub text_eq_iff : (s t : Text) → (text_eq s t ≡ true) ↔ (s ≡ t)
unfolding text_eq
text_eq_iff [] [] = ground arith
text_eq_iff [] (s ∷ t) = ground arith
text_eq_iff (r ∷ rs) [] = ground arith
text_eq_iff (r ∷ rs) (s ∷ ss) = ground (arith, rune_eq_iff r s, text_eq_iff rs ss)

-- A text of ASCII codes.
abbrev pub ascii : List ℕ → Text
ascii [] = []
ascii (c ∷ cs) = point c ∷ ascii cs
