-- ===== src/Prelude/Text.antt =====
-- Python's `not text` and `text.strip()` on native strings, as far as the program asks whether
-- something is left.
use Prim.Native.Char.{code}
use Prim.Native.Nat.{ℕ}
use Prim.Native.String.{String}
use mathlib.Core.Bool.{Bool, true, false, ◌||◌, ◌&&◌}
use mathlib.Core.Option.{Option, none, some}
use tiber.Prelude.Tests.{leb}
use tiber.Prelude.Eq.{nat_beq}

-- `not text`
abbrev pub is_empty : String → Bool
is_empty String.[] = true
is_empty (String.◌∷◌ _ _) = false

-- `str.isspace` of one character
unfoldable pub is_space : ℕ → Bool
is_space c =
    (leb 9 c && leb c 13)
    || (leb 28 c && leb c 32)
    || nat_beq c 133
    || nat_beq c 160
    || nat_beq c 5760
    || (leb 8192 c && leb c 8202)
    || nat_beq c 8232
    || nat_beq c 8233
    || nat_beq c 8239
    || nat_beq c 8287
    || nat_beq c 12288

-- `not text or not text.strip()`
unfoldable pub is_blank : String → Bool
unfolding is_space
is_blank String.[] = true
is_blank (String.◌∷◌ c s) = is_space (code c) && is_blank s

-- `not text` where the text may be `None`
abbrev pub is_missing : Option String → Bool
is_missing none = true
is_missing (some s) = is_empty s

-- `not text or not text.strip()` where the text may be `None`
unfoldable pub is_missing_or_blank : Option String → Bool
unfolding is_blank
is_missing_or_blank none = true
is_missing_or_blank (some s) = is_blank s

-- The concatenation of an f-string, by characters.
infixr 65 ◌<>◌
unfoldable pub ◌<>◌ : String → String → String
String.[] <> t = t
String.◌∷◌ c s <> t = String.◌∷◌ c (s <> t)
