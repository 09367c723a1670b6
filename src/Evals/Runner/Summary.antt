-- ===== src/Evals/Runner/Summary.antt =====
-- evals/runner.py: `_summarise` and `RunSummary`. The mean recall at each k and the sum of the
-- durations are left out.
use mcp_text_to_sql_agent.Prelude.{
  sym, ap, ◌∙◌, ℕ, suc, ◌+◌, ◌≤◌, String, Bool, true, false, not, ◌||◌, Option, none, some, List,
  [], ◌∷◌, length, keep, map, if◌then◌else◌, ◌==◌, lookup, assign_key, leb, ◌≡◌, refl, arith,
  Bool-cases, inl, inr, eq_iff,
}
use mcp_text_to_sql_agent.Evals.Taxonomy
use mcp_text_to_sql_agent.Evals.Taxonomy.{
  FailureCategory, gold_error, infrastructure, counts, parse_category,
}
use mcp_text_to_sql_agent.Evals.Taxonomy.Counts.{counts-counted, total as tally_total}
use mcp_text_to_sql_agent.Evals.Artifacts.{QuestionArtifact}

pub record RunSummary : Type 0 where
  pub total : ℕ
  pub scored : ℕ
  pub matched : ℕ
  pub gold_errors : ℕ
  pub infrastructure_errors : ℕ
  pub answered_by : List (String × ℕ)
  pub failures : List (String × ℕ)
  pub recall : List (String × ℕ)
  pub input_tokens : ℕ
  pub output_tokens : ℕ

-- `if a.matched`
abbrev pub is_true : Option Bool → Bool
is_true none = false
is_true (some b) = b

abbrev pub or_zero : Option ℕ → ℕ
or_zero none = 0
or_zero (some n) = n

module _ {Float : Type 0} where
  -- `a.failure_category == category`
  unfoldable pub is_in : FailureCategory → QuestionArtifact Float → Bool
  unfolding Taxonomy.value
  is_in category a = a.failure_category == Taxonomy.value category

  -- `a.failure_category not in _UNSCORED`
  unfoldable pub is_scorable : QuestionArtifact Float → Bool
  unfolding is_in
  is_scorable a = not (is_in gold_error a || is_in infrastructure a)

  unfoldable pub sum_of : (QuestionArtifact Float → ℕ) → List (QuestionArtifact Float) → ℕ
  sum_of f [] = 0
  sum_of f (a ∷ rest) = f a + sum_of f rest

  -- `answered_by[model] = answered_by.get(model, 0) + 1`, of the artifacts that name a model.
  unfoldable pub tally_models :
      List (String × ℕ) → List (QuestionArtifact Float) → List (String × ℕ)
  tally_models tally [] = tally
  tally_models tally (a ∷ rest) =
      tally_models
        (if a.answering_model == ""
          then tally
          else assign_key a.answering_model (suc (or_zero (lookup a.answering_model tally))) tally)
        rest

  abbrev pub has_recall : QuestionArtifact Float → Bool
  has_recall a = elim a.recall_at_k [ [] ↦ false | _ ∷ _ ↦ true ]

  -- `_summarise`
  unfoldable pub summarise : List (QuestionArtifact Float) → RunSummary
  unfolding is_in is_scorable tally_models sum_of counts parse_category
  summarise artifacts =
      let scorable = keep is_scorable artifacts in
      record {
        total = length artifacts;
        scored = length scorable;
        matched = length (keep (λ a. is_true a.matched) scorable);
        gold_errors = length (keep (is_in gold_error) artifacts);
        infrastructure_errors = length (keep (is_in infrastructure) artifacts);
        answered_by = tally_models [] artifacts;
        failures = counts (map (λ a. parse_category a.failure_category) artifacts);
        recall =
            ("questions", length artifacts)
            ∷ ("scored", length (keep has_recall artifacts))
            ∷ ("unresolved_references", sum_of (λ a. a.unresolved_references) artifacts)
            ∷ [];
        input_tokens = sum_of (λ a. a.input_tokens) artifacts;
        output_tokens = sum_of (λ a. a.output_tokens) artifacts;
      }

-- `single_model`
unfoldable pub single_model : RunSummary → Bool
single_model s = leb (length s.answered_by) 1

module _ {Float : Type 0} where
  length-keep-le :
      (p : QuestionArtifact Float → Bool) (xs : List (QuestionArtifact Float))
      → length (keep p xs) ≤ length xs
  length-keep-le p [] = omega arith
  length-keep-le p (x ∷ xs) = elim (Bool-cases (p x)) [
    | inl e ↦ rw e (omega (arith, length-keep-le p xs))
    | inr e ↦ rw e (omega (arith, length-keep-le p xs))
  ]

  gold_not-infrastructure :
      (a : QuestionArtifact Float) → is_in gold_error a ≡ true → is_in infrastructure a ≡ false
  unfolding is_in Taxonomy.value
  gold_not-infrastructure a h = elim (Bool-cases (a.failure_category == "infrastructure")) [
    | inl e ↦ absurd (
        apart (
          sym ((eq_iff a.failure_category "gold_error").0 h)
          ∙ (eq_iff a.failure_category "infrastructure").0 e))
    | inr e ↦ e
  ]
    where
      apart : ¬ (◌≡◌ {A = String} "gold_error" "infrastructure")
      apart e = ground (arith, eq_iff "gold_error" "infrastructure")

  length-map :
      (xs : List (QuestionArtifact Float))
      → length (map (λ a. parse_category a.failure_category) xs) ≡ length xs
  length-map [] = refl
  length-map (x ∷ xs) = ap suc (length-map xs)

  keep-partition :
      (xs : List (QuestionArtifact Float))
      → length (keep is_scorable xs)
          + length (keep (is_in gold_error) xs)
          + length (keep (is_in infrastructure) xs)
        ≡ length xs
  unfolding is_scorable
  keep-partition [] = refl
  keep-partition (x ∷ xs) = elim (Bool-cases (is_in gold_error x)) [
    | inl e ↦ rw (e, gold_not-infrastructure x e) (omega (arith, keep-partition xs))
    | inr e ↦ elim (Bool-cases (is_in infrastructure x)) [
      | inl f ↦ rw (e, f) (omega (arith, keep-partition xs))
      | inr f ↦ rw (e, f) (omega (arith, keep-partition xs))
    ]
  ]

  -- Each artifact of a run is scored, or is a gold error, or is an infrastructure failure, and only
  -- one of them; no more are matched than are scored; and the tally of failures adds up to the total.
  pub summarise-partition :
      (artifacts : List (QuestionArtifact Float))
      → let s = summarise artifacts in
        (s.scored + s.gold_errors + s.infrastructure_errors ≡ s.total)
        × (s.matched ≤ s.scored)
        × (tally_total s.failures ≡ s.total)
  unfolding summarise
  summarise-partition artifacts = (
    keep-partition artifacts,
    length-keep-le (λ a. is_true a.matched) (keep is_scorable artifacts),
    (counts-counted (map (λ a. parse_category a.failure_category) artifacts) gold_error).1
        ∙ length-map artifacts,
  )
