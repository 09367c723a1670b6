-- ===== src/Api/Middleware/Ids.antt =====
-- api/middleware.py: the id that is repeated in logs and headers is safe to repeat.
use Prim.Native.Char.{code}
use Prim.Native.String.{[], ◌∷◌}
use text.Mathlib.TextLemmas.{length-append, nil-append, cons-append}
use mcp_text_to_sql_agent.Prelude.{
  ◌≤◌, String, count, true, false, ◌&&◌, Option, none, some, ◌≡◌, ◌⊎◌, inl, inr, refl, ◌∙◌, ap,
  arith, Bool-cases, ◌⧺◌, and_left, and_right,
}
use mcp_text_to_sql_agent.Api.Middleware.{is_id_char, all_id_chars, is_safe_id, assign_request_id}

-- Between 1 and 128 letters, digits, dots, underscores, colons and dashes.
abbrev pub IsSafeId : String → Type 0
IsSafeId s = (1 ≤ count s) × (count s ≤ 128) × (all_id_chars s ≡ true)

-- No id, or one that is not safe.
abbrev pub IsUnsafe : Option String → Type 0
IsUnsafe none = Unit
IsUnsafe (some s) = is_safe_id s ≡ false

is_safe_id-IsSafeId : (s : String) → is_safe_id s ≡ true → IsSafeId s
unfolding is_safe_id
is_safe_id-IsSafeId s h = (ground (arith, h), ground (arith, h), ground (arith, h))

all_id_chars-append :
    (s t : String) → all_id_chars s ≡ true → all_id_chars t ≡ true → all_id_chars (s ⧺ t) ≡ true
unfolding all_id_chars
all_id_chars-append [] t h k = ap all_id_chars (nil-append t) ∙ k
all_id_chars-append (c ∷ s) t h k =
    ap all_id_chars (cons-append c s t)
    ∙ ap (λ b. b && all_id_chars (s ⧺ t)) (and_left (is_id_char (code c)) (all_id_chars s) h)
    ∙ all_id_chars-append s t (and_right (is_id_char (code c)) (all_id_chars s) h) k

req_safe : all_id_chars "req_" ≡ true
unfolding all_id_chars
req_safe = refl

module _ (uuid_hex : String) (digits : all_id_chars uuid_hex ≡ true)
    (size : count uuid_hex ≡ 32) where
  fresh-IsSafeId : IsSafeId ("req_" ⧺ uuid_hex)
  fresh-IsSafeId =
      let sum = length-append "req_" uuid_hex in
      (
        omega (arith, sum, size),
        omega (arith, sum, size),
        all_id_chars-append "req_" uuid_hex req_safe digits,
      )

  -- Whatever a caller supplies, given that a fresh `uuid4().hex` has 32 characters that are letters
  -- or digits: the id that is assigned has between 1 and 128 letters, digits, dots, underscores,
  -- colons and dashes; and it is the one that was supplied, or a fresh one, which is assigned only
  -- when none was supplied or the one supplied is not safe.
  pub assign_request_id-IsSafeId :
      (supplied : Option String)
      → IsSafeId (assign_request_id uuid_hex supplied)
        × ((supplied ≡ some (assign_request_id uuid_hex supplied))
            ⊎ ((assign_request_id uuid_hex supplied ≡ "req_" ⧺ uuid_hex) × IsUnsafe supplied))
  unfolding assign_request_id
  assign_request_id-IsSafeId none = (fresh-IsSafeId, inr (refl, tt))
  assign_request_id-IsSafeId (some s) = elim (Bool-cases (is_safe_id s)) [
    | inl e ↦ rw e (is_safe_id-IsSafeId s e, inl refl)
    | inr e ↦ rw e (fresh-IsSafeId, inr (refl, refl))
  ]
