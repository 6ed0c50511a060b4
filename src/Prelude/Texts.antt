-- ===== src/Prelude/Texts.antt =====
-- Python's `str`: its length in code points, `strip`, and membership of a set of words.
use Prim.Native.Nat.{ℕ, suc}
use Prim.Native.Char.{Char, code}
use Prim.Native.String.{String}
use mathlib.Core.Path.{sym, ◌∙◌}
use mathlib.Core.Logic.{inl, inr}
use text.Mathlib.TextEquality.{eq_iff}
use mathlib.Core.Bool.{false≢true, Bool, true, false, ◌&&◌, ◌||◌}
use mathlib.Core.List.{List, [], ◌∷◌}
use text.Mathlib.Text.{◌==◌ as str_eq}
use zaynor.Prelude.Tests.{Bool-cases, leb, ◌==◌, if◌then◌else◌}

-- len(s)
unfoldable pub text_length : String → ℕ
text_length String.[] = 0
text_length (String.◌∷◌ c s) = suc (text_length s)

unfoldable pub is_empty : String → Bool
is_empty String.[] = true
is_empty (String.◌∷◌ c s) = false

-- The code points that `str.isspace` and `str.strip` take for white space.
unfoldable pub is_space : ℕ → Bool
is_space c =
    (leb 9 c && leb c 13)
    || (leb 28 c && leb c 32)
    || c == 0x85
    || c == 0xa0
    || c == 0x1680
    || (leb 0x2000 c && leb c 0x200a)
    || c == 0x2028
    || c == 0x2029
    || c == 0x202f
    || c == 0x205f
    || c == 0x3000

lstrip : String → String
lstrip String.[] = String.[]
lstrip (String.◌∷◌ c s) = let rest = lstrip s in if is_space (code c) then rest else String.◌∷◌ c s

trim_right : Char → String → String
trim_right c String.[] = if is_space (code c) then String.[] else String.◌∷◌ c String.[]
trim_right c (String.◌∷◌ d s) = String.◌∷◌ c (String.◌∷◌ d s)

rstrip : String → String
unfolding trim_right
rstrip String.[] = String.[]
rstrip (String.◌∷◌ c s) = trim_right c (rstrip s)

-- s.strip()
unfoldable pub strip : String → String
unfolding lstrip rstrip is_space
strip s = rstrip (lstrip s)

-- not s.strip()
unfoldable pub is_blank : String → Bool
unfolding strip is_empty
is_blank s = is_empty (strip s)

-- w in words
abbrev pub elem : String → List String → Bool
elem w [] = false
elem w (x ∷ xs) = str_eq w x || elem w xs

pub string_discrete : Discrete String
string_discrete s t = elim (Bool-cases (str_eq s t)) [
  | inl h ↦ yes ((eq_iff s t).0 h)
  | inr h ↦ no (λ p. false≢true (sym h ∙ (eq_iff s t).1 p))
]
