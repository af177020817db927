-- ===== src/Prelude/Strings.antt =====
-- Text that the program measures, cuts or joins: its list of code points. Names, codes and
-- messages, which the program only compares and prints, are native strings.
use Prim.Native.Nat.{ℕ}
use Prim.Native.Char.{code}
use Prim.Native.String.{String}
use mathlib.Core.List.{List, [], ◌∷◌, ◌++◌}
use mathlib.Core.Bool.{Bool, true, false, ◌||◌, ◌&&◌}
use mathlib.Core.Option.{Option, none, some}
use text.Mathlib.Text.{◌==◌ as str_eq}
use llm_inference_logger.Prelude.Tests.{if◌then◌else◌, ltb, ◌==◌}
use llm_inference_logger.Prelude.Lists.{length}

abbrev pub Text : Type 0
Text = List ℕ

-- The code points of a string.
abbrev pub codes : String → Text
codes String.[] = []
codes (String.◌∷◌ c s) = code c ∷ codes s

-- `len(s)` of a name.
abbrev pub len : String → ℕ
len s = length (codes s)

-- `"".join(parts)`
abbrev pub join : List Text → Text
join [] = []
join (t ∷ ts) = t ++ join ts

-- Python's `<` on strings: by the first code point that differs.
abbrev pub text_lt : Text → Text → Bool
text_lt [] [] = false
text_lt [] (_ ∷ _) = true
text_lt (_ ∷ _) [] = false
text_lt (a ∷ as_) (b ∷ bs) = let rest = text_lt as_ bs in ltb a b || (a == b && rest)

-- `str(a or b)` for an optional name, and `a or b` for a text.
abbrev pub name_or : Option String → String → String
name_or none b = b
name_or (some a) b = if str_eq a "" then b else a

abbrev pub text_or : String → String → String
text_or a b = if str_eq a "" then b else a
