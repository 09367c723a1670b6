-- ===== src/Prelude/Text.antt =====
-- Python's `str` methods that the program uses and that depend on no Unicode folding table.
use Prim.Native.Nat.{ℕ, zero, suc, ◌≤◌, ◌/◌, ◌%◌}
use Prim.Native.Char.{code}
use Prim.Native.String
use Prim.Native.String.{String, count, [], ◌∷◌}
use mathlib.Core.Path.{◌≡◌, refl}
use mathlib.Core.Bool.{Bool, true, false, ◌||◌, ◌&&◌}
use native.Mathlib.Omega.{arith}
use text.Mathlib.TextLemmas.{length-cons, length-nil}
use text.Mathlib.Text.{◌==◌}
use mcp_text_to_sql_agent.Prelude.Tests.{ltb, leb, nat_eq, if◌then◌else◌}

infixr 66 ◌⧺◌
abbrev pub ◌⧺◌ : String → String → String
s ⧺ t = String.◌++◌ s t

-- `str.isspace` of one character.
unfoldable pub is_space : ℕ → Bool
is_space c =
    (leb 9 c && leb c 13)
    || (leb 28 c && leb c 32)
    || nat_eq c 133
    || nat_eq c 160
    || nat_eq c 5760
    || (leb 8192 c && leb c 8202)
    || nat_eq c 8232
    || nat_eq c 8233
    || nat_eq c 8239
    || nat_eq c 8287
    || nat_eq c 12288

unfoldable pub lstrip : String → String
unfolding is_space
lstrip [] = []
lstrip (c ∷ s) = if is_space (code c) then lstrip s else c ∷ s

unfoldable pub rstrip : String → String
unfolding is_space
rstrip [] = []
rstrip (c ∷ s) = let r = rstrip s in if (r == "") && is_space (code c) then "" else c ∷ r

-- `s.strip()`
unfoldable pub strip : String → String
unfolding lstrip rstrip
strip s = rstrip (lstrip s)

-- A character at which `str.splitlines` ends a line.
unfoldable pub is_line_break : ℕ → Bool
is_line_break c =
    (leb 10 c && leb c 13)
    || (leb 28 c && leb c 30)
    || nat_eq c 133
    || nat_eq c 8232
    || nat_eq c 8233

-- `s.splitlines()[0]` of a text that is not empty.
unfoldable pub until_line_break : String → String
unfolding is_line_break
until_line_break [] = []
until_line_break (c ∷ s) = if is_line_break (code c) then "" else c ∷ until_line_break s

digit : ℕ → String
digit zero = "0"
digit (suc zero) = "1"
digit (suc (suc zero)) = "2"
digit (suc (suc (suc zero))) = "3"
digit (suc (suc (suc (suc zero)))) = "4"
digit (suc (suc (suc (suc (suc zero))))) = "5"
digit (suc (suc (suc (suc (suc (suc zero)))))) = "6"
digit (suc (suc (suc (suc (suc (suc (suc zero))))))) = "7"
digit (suc (suc (suc (suc (suc (suc (suc (suc zero)))))))) = "8"
digit _ = "9"

-- The fuel is at least the number of digits.
show_digits : ℕ → ℕ → String
unfolding digit
show_digits zero n = ""
show_digits (suc fuel) n = elim (ltb n 10) [
  | true ↦ digit n
  | false ↦ show_digits fuel (n / 10) ⧺ digit (n % 10)
]

-- `str(n)` of an integer that is not negative.
unfoldable pub show : ℕ → String
unfolding show_digits
show n = show_digits (suc n) n

test-show : show 100307 ≡ "100307"
unfolding show
test-show = refl

test-strip : strip " \n select 1 \t" ≡ "select 1"
unfolding strip
test-strip = refl

-- `text[:n]`
unfoldable pub prefix : ℕ → String → String
prefix zero s = []
prefix (suc n) [] = []
prefix (suc n) (c ∷ s) = c ∷ prefix n s

pub prefix-short : (n : ℕ) (s : String) → count (prefix n s) ≤ n
unfolding prefix
prefix-short zero s = omega (arith, length-nil)
prefix-short (suc n) [] = omega (arith, length-nil)
prefix-short (suc n) (c ∷ s) = omega (arith, prefix-short n s, length-cons c (prefix n s))

-- `sep.join(parts)`
abbrev pub join : String → mathlib.Core.List.List String → String
join sep mathlib.Core.List.[] = ""
join sep (mathlib.Core.List.◌∷◌ x mathlib.Core.List.[]) = x
join sep (mathlib.Core.List.◌∷◌ x (mathlib.Core.List.◌∷◌ y xs)) =
    x ⧺ sep ⧺ join sep (mathlib.Core.List.◌∷◌ y xs)
