-- ===== src/Evals/Artifacts/Names.antt =====
-- evals/artifacts.py: the name of a question's file.
use Prim.Native.Char.{Char, code}
use Prim.Native.String.{[], ◌∷◌}
use text.Mathlib.TextLemmas.{append_cancel_right, append_inj, length-append}
use mcp_text_to_sql_agent.Prelude.{
  ℕ, zero, suc, ◌≤◌, String, count, true, ◌≡◌, refl, sym, ◌∙◌, ap, arith, ◌⧺◌, Bool-cases, inl, inr,
  prefix, prefix-short,
}
use mcp_text_to_sql_agent.Evals.Artifacts.{
  Hashing, is_safe_char, safe_char, sanitised, artifact_filename,
}

-- Every character of a text is a letter, a digit, an underscore or a dash.
abbrev pub IsSafe : String → Type 0
IsSafe [] = Unit
IsSafe (c ∷ s) = (is_safe_char (code c) ≡ true) × IsSafe s

dash_safe : is_safe_char 45 ≡ true
unfolding is_safe_char
dash_safe = refl

safe_char-safe : (c : Char) → is_safe_char (code (safe_char c (is_safe_char (code c)))) ≡ true
safe_char-safe c = elim (Bool-cases (is_safe_char (code c))) [
  | inl e ↦ rw (e, e) refl
  | inr e ↦ rw e dash_safe
]

sanitised-IsSafe : (s : String) → IsSafe (sanitised s)
unfolding sanitised
sanitised-IsSafe [] = tt
sanitised-IsSafe (c ∷ s) = (safe_char-safe c, sanitised-IsSafe s)

prefix-IsSafe : (n : ℕ) (s : String) → IsSafe s → IsSafe (prefix n s)
unfolding prefix
prefix-IsSafe zero s h = tt
prefix-IsSafe (suc n) [] h = tt
prefix-IsSafe (suc n) (c ∷ s) (safe, h) = (safe, prefix-IsSafe n s h)

-- Whatever text a benchmark gives as the id of a question, the name of its file is a stem of at most
-- 80 letters, digits, underscores and dashes, a dash, the digest of the id and the extension.
pub artifact_filename-IsSafe :
    (h : Hashing) (question_id : String)
    → (stem : String) × (artifact_filename h question_id
        ≡ stem ⧺ "-" ⧺ h.short_digest question_id ⧺ ".json")
      × IsSafe stem
      × (count stem ≤ 80)
unfolding artifact_filename
artifact_filename-IsSafe h question_id =
    let safe = prefix-IsSafe 80 (sanitised question_id) (sanitised-IsSafe question_id) in
    (prefix 80 (sanitised question_id), refl, safe, prefix-short 80 (sanitised question_id))

same_tail : (s t u v : String) → s ⧺ u ≡ t ⧺ v → count u ≡ count v → u ≡ v
same_tail s t u v e same =
    (append_inj e (omega (arith, ap count e, length-append s u, length-append t v, same))).1

-- If the digests have eight characters each, the names of two files are the same only if the
-- digests of the ids are.
pub artifact_filename-collides :
    (h : Hashing) (a b : String)
    → count (h.short_digest a) ≡ 8
    → count (h.short_digest b) ≡ 8
    → artifact_filename h a ≡ artifact_filename h b
    → h.short_digest a ≡ h.short_digest b
artifact_filename-collides h a b eight eight' same =
    let (s, named, _, _) = artifact_filename-IsSafe h a in
    let (t, named', _, _) = artifact_filename-IsSafe h b in
    let tails = λ (d : String). ("-" ⧺ d ⧺ ".json") in
    let size = λ (d : String). length-append "-" (d ⧺ ".json") in
    let size' = λ (d : String). length-append d ".json" in
    append_cancel_right (h.short_digest a) (h.short_digest b) ".json"
      (append_inj {s₁ = "-"} {s₂ = "-"}
        (same_tail s t (tails (h.short_digest a)) (tails (h.short_digest b))
          (sym named ∙ same ∙ named')
          (omega (
            arith,
            eight,
            eight',
            size (h.short_digest a),
            size (h.short_digest b),
            size' (h.short_digest a),
            size' (h.short_digest b),
          )))
        refl).1
