-- ===== src/Evals/Runner/Walls.antt =====
-- evals/runner.py: a run goes on until, and only until, a wall of infrastructure failures.
use mathlib.Core.Option.{some-injective}
use mathlib.Core.List.{append-eq-nil_iff, head-eq_of_cons-eq, tail-eq_of_cons-eq}
use mcp_text_to_sql_agent.Prelude.{
  ℕ, suc, ◌+◌, ◌≤◌, ◌<◌, String, true, false, Option, none, some, List, [], ◌∷◌, ◌++◌, length, ◌≡◌,
  ◌⊎◌, inl, inr, refl, sym, ◌∙◌, ap, arith, Bool-cases, leb→le,
}
use mcp_text_to_sql_agent.Platform.{Platform}
use mcp_text_to_sql_agent.Evals.Taxonomy.{is_infrastructure}
use mcp_text_to_sql_agent.Evals.Artifacts.{
  QuestionArtifact, Directory, RunStore, start, resume, record_artifact, config_fingerprint,
}
use mcp_text_to_sql_agent.Evals.Runner.{
  Question, Harness, Progress, evaluate, evaluate_all, should_halt, next_count, run, run_pending,
  pending,
}
use mcp_text_to_sql_agent.Evals.Runner.Resuming.{IsOther, IsSame, AreUnanswered}
use mcp_text_to_sql_agent.Evals.Runner.Halting.{
  AreFailures, IsPrefixRun, recorded_on_halt, recorded_on_next, recorded_at_end,
}

halts_at : (limit c : ℕ) → should_halt (some limit) c ≡ true → limit ≤ c
unfolding should_halt
halts_at limit c h = leb→le limit c h

goes_on_below : (limit c : ℕ) → should_halt (some limit) c ≡ false → c < limit
unfolding should_halt
goes_on_below limit c h = ground arith

module _ (P : Platform) (harness : Harness P) (store : RunStore) (limit : ℕ) where
  open P use {Float}

  abbrev recorded : ℕ → ℕ → List (Question P) → Directory Float → List (QuestionArtifact Float)
  recorded n c questions d = (evaluate_all P harness store (some limit) n c questions d).recorded

  -- Nothing is recorded after the failures that reach the limit, counted from where the loop stands.
  ends_at_wall :
      (n c : ℕ) (questions : List (Question P)) (d : Directory Float)
      (wall after : List (QuestionArtifact Float))
      → c < limit
      → recorded n c questions d ≡ wall ++ after
      → AreFailures P wall
      → limit ≤ c + length wall
      → after ≡ []
  ends_at_wall n c [] d wall after below same failures reached =
      ((append-eq-nil_iff {p = wall}).0
        (sym same ∙ recorded_at_end P harness store (some limit) n c d)).1
  ends_at_wall n c (q ∷ questions) d [] after below same failures reached = absurd (omega arith)
  ends_at_wall n c (q ∷ questions) d (w ∷ wall) after below same (failed, failures) reached =
      let a = evaluate P harness n q in
      elim (Bool-cases (should_halt (some limit) (next_count P a c))) [
        | inl e ↦
            ((append-eq-nil_iff {p = wall}).0 (
              sym (
                tail-eq_of_cons-eq (
                  sym (recorded_on_halt P harness store (some limit) n c q questions d e)
                  ∙ same)))).1
        | inr e ↦
            let both =
              sym (recorded_on_next P harness store (some limit) n c q questions d e) ∙ same in
            let counted : next_count P a c ≡ suc c =
              rw (ap (λ x. is_infrastructure x.error_type) (head-eq_of_cons-eq both) ∙ failed)
                refl in
            ends_at_wall (suc n) (next_count P a c) questions (record_artifact store a d) wall after
              (goes_on_below limit (next_count P a c) e) (tail-eq_of_cons-eq both) failures
              (omega (arith, counted))
      ]

  -- Wherever as many failures as the limit stand, nothing is recorded after them.
  ends_after_wall :
      (n c : ℕ) (questions : List (Question P)) (d : Directory Float)
      (before wall after : List (QuestionArtifact Float))
      → c < limit
      → recorded n c questions d ≡ before ++ (wall ++ after)
      → AreFailures P wall
      → limit ≤ length wall
      → after ≡ []
  ends_after_wall n c questions d [] wall after below same failures reached =
      ends_at_wall n c questions d wall after below same failures (omega arith)
  ends_after_wall n c [] d (x ∷ before) wall after below same failures reached =
      ((append-eq-nil_iff {p = wall}).0
        ((append-eq-nil_iff {p = x ∷ before} {q = wall ++ after}).0
          (sym same ∙ recorded_at_end P harness store (some limit) n c d)).1).1
  ends_after_wall n c (q ∷ questions) d (x ∷ before) wall after below same failures reached =
      let a = evaluate P harness n q in
      elim (Bool-cases (should_halt (some limit) (next_count P a c))) [
        | inl e ↦
            ((append-eq-nil_iff {p = wall}).0
              ((append-eq-nil_iff {p = before} {q = wall ++ after}).0 (
                sym (
                  tail-eq_of_cons-eq (
                    sym (recorded_on_halt P harness store (some limit) n c q questions d e)
                    ∙ same)))).1).1
        | inr e ↦
            ends_after_wall (suc n) (next_count P a c) questions (record_artifact store a d) before
              wall after (goes_on_below limit (next_count P a c) e)
              (tail-eq_of_cons-eq
                (sym (recorded_on_next P harness store (some limit) n c q questions d e) ∙ same))
              failures reached
      ]

module _ (P : Platform) (harness : Harness P) (store : RunStore) where
  open P use {Float}

  -- A directory of another configuration, and no progress; or the progress over the questions that
  -- the directory has no answer to.
  abbrev pub IsProgress :
      Option ℕ → List (Question P) → Directory Float → Option (Progress P) → Type 0
  IsProgress halt questions d p =
      (IsOther (config_fingerprint store.hashing store.run_manifest) d.manifest × (p ≡ none))
      ⊎ (IsSame (config_fingerprint store.hashing store.run_manifest) d.manifest
          × ((todo : List (Question P)) × (progress : Progress P) × (p ≡ some progress)
              × AreUnanswered P d.files questions todo
              × IsPrefixRun P harness store halt [] todo progress.recorded))

  none≢some : (p : Progress P) → ¬ (none ≡ some p)
  none≢some p h = absurd (ground arith)

  run_pending-ends :
      (limit : ℕ) (questions : List (Question P)) (d : Directory Float)
      (done : Option (List String)) (p : Progress P)
      (before wall after : List (QuestionArtifact Float))
      → 1 ≤ limit
      → run_pending P harness store (some limit) questions d done ≡ some p
      → p.recorded ≡ before ++ (wall ++ after)
      → AreFailures P wall
      → limit ≤ length wall
      → after ≡ []
  unfolding run_pending
  run_pending-ends limit questions d none p before wall after legal ran _ = absurd (none≢some p ran)
  run_pending-ends limit questions d (some done) p before wall after legal ran same =
      ends_after_wall P harness store limit 0 0 (pending P done questions) d before wall after legal
        (ap (λ q. q.recorded) (some-injective _ p ran) ∙ same)

  -- With a limit of at least one: where as many infrastructure failures as the limit, or more, stand
  -- in a row among the artifacts that a run recorded, it recorded nothing after them.
  pub run-ends_after_wall :
      (limit : ℕ) (questions : List (Question P)) (d : Directory Float) (p : Progress P)
      (before wall after : List (QuestionArtifact Float))
      → 1 ≤ limit
      → run P harness store (some limit) questions d ≡ some p
      → p.recorded ≡ before ++ (wall ++ after)
      → AreFailures P wall
      → limit ≤ length wall
      → after ≡ []
  unfolding run
  run-ends_after_wall limit questions d p before wall after =
      run_pending-ends limit questions (start store d) (resume store (start store d)) p before wall
        after
