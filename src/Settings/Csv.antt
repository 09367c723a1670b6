-- ===== src/Settings/Csv.antt =====
-- core/settings.py: the lists of a `.env` file are read back as they are written.
use Prim.Native.Char.{code}
use Prim.Native.String.{[], ◌∷◌}
use text.Mathlib.TextLemmas.{nil-append, cons-append}
use mcp_text_to_sql_agent.Prelude.{
  String, false, true, List, ◌≡◌, ◌≢◌, refl, ◌∙◌, ap, All, nat_eq, ◌⧺◌, strip, join, map, keep,
  ◌==◌, eq_iff, Bool-cases, inl, inr,
}
use mcp_text_to_sql_agent.Settings.Llm.{pieces, split_pieces, split_at, split_csv, is_filled}

-- A text without a comma.
abbrev pub HasNoComma : String → Type 0
HasNoComma [] = Unit
HasNoComma (c ∷ s) = (nat_eq (code c) 44 ≡ false) × HasNoComma s

-- An element that a comma-separated list can carry: not empty, with no comma, and with no space at
-- either end.
abbrev pub IsPlain : String → Type 0
IsPlain s = (s ≢ "") × HasNoComma s × (strip s ≡ s)

split_pieces-plain :
    (s : String) → HasNoComma s → split_pieces s ≡ record { head = s; tail = mathlib.Core.List.[] }
unfolding split_pieces split_at
split_pieces-plain [] h = refl
split_pieces-plain (c ∷ s) (other, h) = rw (other, split_pieces-plain s h) refl

split_pieces-comma :
    (s rest : String)
    → HasNoComma s
    → split_pieces (s ⧺ "," ⧺ rest) ≡ record { head = s; tail = pieces (split_pieces rest) }
unfolding split_pieces split_at
split_pieces-comma [] rest h =
    rw (nil-append ("," ⧺ rest), cons-append "," "" rest, nil-append rest) refl
split_pieces-comma (c ∷ s) rest (other, h) =
    rw (cons-append c s ("," ⧺ rest), other, split_pieces-comma s rest h) refl

is_filled-plain : (s : String) → IsPlain s → is_filled s ≡ true
unfolding is_filled
is_filled-plain s (filled, comma, tight) = elim (Bool-cases (s == "")) [
  | inl e ↦ absurd (filled ((eq_iff s "").0 e))
  | inr e ↦ rw (tight, e) refl
]

kept : (xs : List String) → All IsPlain xs → map strip (keep is_filled xs) ≡ xs
kept mathlib.Core.List.[] h = refl
kept (mathlib.Core.List.◌∷◌ x xs) (plain, h) = rw (is_filled-plain x plain, plain.2, kept xs h) refl

pieces-join :
    (x : String) (xs : List String)
    → All IsPlain (mathlib.Core.List.◌∷◌ x xs)
    → pieces (split_pieces (join "," (mathlib.Core.List.◌∷◌ x xs))) ≡ mathlib.Core.List.◌∷◌ x xs
pieces-join x mathlib.Core.List.[] h = ap pieces (split_pieces-plain x h.0.1)
pieces-join x (mathlib.Core.List.◌∷◌ y ys) h =
    ap pieces (split_pieces-comma x (join "," (mathlib.Core.List.◌∷◌ y ys)) h.0.1)
    ∙ ap (mathlib.Core.List.◌∷◌ x) (pieces-join y ys h.1)

-- A list whose elements are not empty, contain no comma and neither begin nor end with a space is
-- read back from the text that joins it by commas.
pub split_csv-join : (xs : List String) → All IsPlain xs → split_csv (join "," xs) ≡ xs
unfolding split_csv
split_csv-join mathlib.Core.List.[] h = refl
split_csv-join (mathlib.Core.List.◌∷◌ x xs) h =
    ap (λ ps. map strip (keep is_filled ps)) (pieces-join x xs h)
    ∙ (kept (mathlib.Core.List.◌∷◌ x xs) h)
