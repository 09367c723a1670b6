-- ===== src/Evals/Runner/Halting.antt =====
-- evals/runner.py: which questions a run attempts, and when it stops.
use mcp_text_to_sql_agent.Prelude.{
  ℕ, suc, ◌≤◌, String, true, false, Option, none, some, List, [], ◌∷◌, ◌++◌, length, map, All,
  All-append, ◌≡◌, ◌⊎◌, inl, inr, refl, sym, ◌∙◌, ap, arith, subst, Bool-cases, append_assoc,
  length-append, leb→le, append-nil,
}
use mcp_text_to_sql_agent.Platform.{Platform}
use mcp_text_to_sql_agent.Evals.Taxonomy.{is_infrastructure}
use mcp_text_to_sql_agent.Evals.Artifacts.{QuestionArtifact, Directory, RunStore, record_artifact}
use mcp_text_to_sql_agent.Evals.Runner.{
  Question, Harness, evaluate, evaluate_all, should_halt, next_count,
}

module _ (P : Platform) where
  open P use {Float}

  -- Only infrastructure failures.
  abbrev pub AreFailures : List (QuestionArtifact Float) → Type 0
  AreFailures xs = All (λ a. is_infrastructure a.error_type ≡ true) xs

  -- The last artifacts are infrastructure failures, as many as the limit or more.
  abbrev pub EndsInWall : Option ℕ → List (QuestionArtifact Float) → Type 0
  EndsInWall none recorded = ⊥
  EndsInWall (some limit) recorded =
      (before : List (QuestionArtifact Float)) × (wall : List (QuestionArtifact Float)) × (recorded
        ≡ before ++ wall)
      × AreFailures wall
      × (limit ≤ length wall)

  wall_at :
      (halt : Option ℕ) (before wall : List (QuestionArtifact Float))
      → should_halt halt (length wall) ≡ true
      → AreFailures wall
      → EndsInWall halt (before ++ wall)
  unfolding should_halt
  wall_at none before wall h failures = absurd (ground arith)
  wall_at (some limit) before wall h failures =
      (before, wall, refl, failures, leb→le limit (length wall) h)

  -- The wall after one more artifact.
  next_wall :
      (before wall : List (QuestionArtifact Float)) (a : QuestionArtifact Float)
      → AreFailures wall
      → (before' : List (QuestionArtifact Float)) × (wall' : List (QuestionArtifact Float))
        × ((before ++ wall) ++ a ∷ [] ≡ before' ++ wall')
        × AreFailures wall'
        × (next_count P a (length wall) ≡ length wall')
  next_wall before wall a failures = elim (Bool-cases (is_infrastructure a.error_type)) [
    | inl e ↦ (
      before,
      wall ++ a ∷ [],
      append_assoc before wall (a ∷ []),
      All-append (λ b. is_infrastructure b.error_type ≡ true) wall (a ∷ []) failures (e, tt),
      rw e (omega (arith, length-append wall (a ∷ []))),
    )
    | inr e ↦ ((before ++ wall) ++ a ∷ [], [], sym (append-nil _), tt, rw e refl)
  ]

  module _ (harness : Harness P) (store : RunStore) (halt : Option ℕ) where
    module _ (n c : ℕ) (q : Question P) (questions : List (Question P)) (d : Directory Float) where
      abbrev pub first : QuestionArtifact Float
      first = evaluate P harness n q

      abbrev pub others : List (QuestionArtifact Float)
      others =
          (evaluate_all P harness store halt (suc n) (next_count P first c) questions
            (record_artifact store first d)).recorded

      pub recorded_on_halt :
          should_halt halt (next_count P first c) ≡ true
          → (evaluate_all P harness store halt n c (q ∷ questions) d).recorded ≡ first ∷ []
      unfolding evaluate_all
      recorded_on_halt e = rw (e, evaluate_all) refl

      pub recorded_on_next :
          should_halt halt (next_count P first c) ≡ false
          → (evaluate_all P harness store halt n c (q ∷ questions) d).recorded ≡ first ∷ others
      unfolding evaluate_all
      recorded_on_next e = rw (e, evaluate_all) refl

    pub recorded_at_end :
        (n c : ℕ) (d : Directory Float) → (evaluate_all P harness store halt n c [] d).recorded ≡ []
    unfolding evaluate_all
    recorded_at_end n c d = refl

    -- The ids of what was recorded begin those of the questions; the run came to the end of them, or
    -- it halted.
    abbrev pub IsPrefixRun :
        List (QuestionArtifact Float) → List (Question P) → List (QuestionArtifact Float) → Type 0
    IsPrefixRun earlier questions recorded =
        (rest : List String) × (map (λ a. a.question_id) recorded ++ rest
          ≡ map (λ q. q.question_id) questions)
        × ((rest ≡ []) ⊎ EndsInWall halt (earlier ++ recorded))

    evaluate-question_id :
        (n : ℕ) (q : Question P) → (evaluate P harness n q).question_id ≡ q.question_id
    unfolding evaluate
    evaluate-question_id n q = refl

    pub evaluate_all-IsPrefixRun :
        (n c : ℕ) (before wall : List (QuestionArtifact Float)) (questions : List (Question P))
        (d : Directory Float)
        → c ≡ length wall
        → AreFailures wall
        → IsPrefixRun
            (before ++ wall)
            questions
            (evaluate_all P harness store halt n c questions d).recorded
    evaluate_all-IsPrefixRun n c before wall [] d count failures =
        rw (recorded_at_end n c d) ([], refl, inl refl)
    evaluate_all-IsPrefixRun n c before wall (q ∷ questions) d count failures =
        let a = evaluate P harness n q in
        let (before', wall', same, failures', count') = next_wall before wall a failures in
        let now : next_count P a c ≡ length wall' = ap (next_count P a) count ∙ count' in
        elim (Bool-cases (should_halt halt (length wall'))) [
          | inl e ↦ rw (recorded_on_halt n c q questions d (ap (should_halt halt) now ∙ e)) (
            map (λ q'. q'.question_id) questions,
            ap (λ i. i ∷ map (λ q'. q'.question_id) questions) (evaluate-question_id n q),
            inr (subst (EndsInWall halt) (sym same) (wall_at halt before' wall' e failures')),
          )
          | inr e ↦
              let (rest, ids, ended) =
                evaluate_all-IsPrefixRun (suc n) (next_count P a c) before' wall' questions
                  (record_artifact store a d) now failures' in
              rw (recorded_on_next n c q questions d (ap (should_halt halt) now ∙ e)) (
                rest,
                ap (λ i. i ∷ (map (λ b. b.question_id) (others n c q questions d) ++ rest))
                      (evaluate-question_id n q)
                    ∙ ap (λ xs. q.question_id ∷ xs) ids,
                elim ended [
                  | inl done ↦ inl done
                  | inr wall_end ↦ inr (
                      subst (EndsInWall halt)
                        (ap (λ xs. xs ++ others n c q questions d) (sym same)
                          ∙ append_assoc (before ++ wall) (a ∷ []) (others n c q questions d))
                        wall_end)
                ],
              )
        ]
