-- ===== src/Api/Sse/Frames.antt =====
-- api/sse.py: a client reads each frame as one event.
use Prim.Native.Char.{Char, code}
use Prim.Native.String.{[], ◌∷◌, ◌++◌}
use mathlib.Core.List.{[] as []ᴸ, ◌∷◌ as ◌∷ᴸ◌}
use mathlib.Core.Option.{some-injective}
use text.Mathlib.TextLemmas.{nil-append, cons-append, append_assoc}
use mcp_text_to_sql_agent.Prelude.{
  ◌&&◌, ℕ, String, Bool, true, false, ◌||◌, List, ◌≡◌, refl, ◌∙◌, ap, arith, nat_eq, ◌⧺◌, sym, not,
  leb, count, some, and_left, and_right, Bool-cases, inl, inr,
}
use mcp_text_to_sql_agent.Api.Sse.{
  spans_lines, is_name_char, all_name_chars, is_event_name, encode, is_lower,
}

-- The lines that a client splits a stream into: the one in front, and those after it.
pub record Lines : Type 0 where
  pub head : String
  pub tail : List String

abbrev pub all_lines : Lines → List String
all_lines l = l.head ∷ᴸ l.tail

abbrev pub before_char : Bool → Char → Lines → Lines
before_char true c l = record { head = ""; tail = all_lines l }
before_char false c l = record l { head = c ∷ l.head }

abbrev pub is_break : ℕ → Bool
is_break c = nat_eq c 10 || nat_eq c 13

abbrev pub lines : String → Lines
lines [] = record { head = ""; tail = []ᴸ }
lines (c ∷ s) = before_char (is_break (code c)) c (lines s)

or-false : (a b : Bool) → a || b ≡ false → (a ≡ false) × (b ≡ false)
or-false a b h = ground (arith, h)

-- A text on one line, before a line feed.
lines-line :
    (s rest : String)
    → spans_lines s ≡ false
    → lines (s ⧺ "\n" ⧺ rest) ≡ record { head = s; tail = all_lines (lines rest) }
unfolding spans_lines
lines-line [] rest h =
    ap lines
      (nil-append ("\n" ⧺ rest) ∙ cons-append "\n" "" rest ∙ ap (λ t. "\n" ∷ t) (nil-append rest))
lines-line (c ∷ s) rest h =
    let parts = or-false (is_break (code c)) (spans_lines s) h in
    ap lines (cons-append c s ("\n" ⧺ rest))
    ∙ ap (λ l. before_char (is_break (code c)) c l) (lines-line s rest parts.1)
    ∙ ap (λ b. before_char b c (record { head = s; tail = all_lines (lines rest) })) parts.0

no_span-append :
    (s t : String) → spans_lines s ≡ false → spans_lines t ≡ false → spans_lines (s ⧺ t) ≡ false
unfolding spans_lines
no_span-append [] t h k = ap spans_lines (nil-append t) ∙ k
no_span-append (c ∷ s) t h k =
    let parts = or-false (is_break (code c)) (spans_lines s) h in
    ap spans_lines (cons-append c s t)
    ∙ ap (λ b. is_break (code c) || b) (no_span-append s t parts.1 k)
    ∙ ap (λ b. b || false) parts.0

name_char-no_break : (c : ℕ) → is_name_char c ≡ true → is_break c ≡ false
name_char-no_break c h = ground (arith, h)

all_name_chars-no_span : (s : String) → all_name_chars s ≡ true → spans_lines s ≡ false
unfolding all_name_chars spans_lines
all_name_chars-no_span [] h = refl
all_name_chars-no_span (c ∷ s) h =
    ap (λ b. b || spans_lines s)
      (name_char-no_break (code c) (and_left (is_name_char (code c)) (all_name_chars s) h))
    ∙ all_name_chars-no_span s (and_right (is_name_char (code c)) (all_name_chars s) h)

is_event_name-no_span : (s : String) → is_event_name s ≡ true → spans_lines s ≡ false
unfolding is_event_name
is_event_name-no_span [] h = absurd (ground (arith, h))
is_event_name-no_span (c ∷ s) h = all_name_chars-no_span (c ∷ s) (every_char h)
  where
    every_char :
        is_lower (code c) && all_name_chars s && leb (count s) 30 ≡ true
        → all_name_chars (c ∷ s) ≡ true
    every_char k = ground (arith, k)

regroup :
    (a e n d p rest : String)
    → (a ++ (e ++ ((n ++ d) ++ (p ++ (n ++ n))))) ++ rest
      ≡ (a ++ e) ++ (n ++ ((d ++ p) ++ (n ++ ("" ++ (n ++ rest)))))
regroup a e n d p rest = simp (append_assoc, nil-append)

encode-parts :
    (event payload frame : String)
    → encode event payload ≡ some frame
    → (is_event_name event ≡ true)
      × (spans_lines payload ≡ false)
      × (frame ≡ "event: " ⧺ event ⧺ "\ndata: " ⧺ payload ⧺ "\n\n")
unfolding encode
encode-parts event payload frame h =
    elim (Bool-cases (is_event_name event && not (spans_lines payload))) [
      | inl e ↦ (ground (arith, e), ground (arith, e), sym (some-injective _ frame (rw e at h)))
      | inr e ↦ absurd (grind (arith, e))
    ]

-- A frame that is made is three lines in the stream, whatever comes after it: the one of its event,
-- the one of its payload and the empty one that ends it. No payload starts another event or field.
pub encode-lines :
    (event payload frame rest : String)
    → encode event payload ≡ some frame
    → all_lines (lines (frame ⧺ rest))
      ≡ ("event: " ⧺ event) ∷ᴸ ("data: " ⧺ payload) ∷ᴸ "" ∷ᴸ all_lines (lines rest)
unfolding spans_lines
encode-lines event payload frame rest h =
    let (name, one_line, made) = encode-parts event payload frame h in
    let last = lines-line "" rest refl in
    let middle =
      lines-line ("data: " ⧺ payload) ("" ⧺ "\n" ⧺ rest)
        (no_span-append "data: " payload refl one_line) in
    let first =
      lines-line ("event: " ⧺ event) (("data: " ⧺ payload) ⧺ "\n" ⧺ ("" ⧺ "\n" ⧺ rest))
        (no_span-append "event: " event refl (is_event_name-no_span event name)) in
    ap (λ f. all_lines (lines (f ⧺ rest))) made
    ∙ ap (λ t. all_lines (lines t)) (regroup "event: " event "\n" "data: " payload rest)
    ∙ ap all_lines first
    ∙ ap (λ l. ("event: " ⧺ event) ∷ᴸ all_lines l) middle
    ∙ ap (λ l. ("event: " ⧺ event) ∷ᴸ ("data: " ⧺ payload) ∷ᴸ all_lines l) last
