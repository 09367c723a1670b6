-- ===== src/Evals/Runner/Resuming.antt =====
-- evals/artifacts.py and evals/runner.py: which questions a resumed run has left.
use mcp_text_to_sql_agent.Prelude.{
  String, false, false≢true, Option, none, some, List, [], ◌∷◌, Any, In, ◌≡◌, ◌≢◌, ◌⊎◌, ◌↔◌, inl,
  inr, refl, sym, ◌∙◌, ap, Bool-cases, ◌==◌, eq_iff, eq_refl, contains, contains_iff,
}
use mcp_text_to_sql_agent.Platform.{Platform}
use mcp_text_to_sql_agent.Evals.Taxonomy.{is_infrastructure}
use mcp_text_to_sql_agent.Evals.Artifacts.{
  Directory, File, stored, unreadable, RunStore, start, resume, resume_at, answered_in,
  config_fingerprint, or_new,
}
use mcp_text_to_sql_agent.Evals.Runner.{Question, pending}

-- The manifest of the directory is that of another configuration.
abbrev pub IsOther : String → Option String → Type 0
IsOther fingerprint manifest =
    (existing : String) × (manifest ≡ some existing) × (existing ≢ fingerprint)

-- There is no manifest yet, or it is that of the same configuration.
abbrev pub IsSame : String → Option String → Type 0
IsSame fingerprint manifest = (manifest ≡ none) ⊎ (manifest ≡ some fingerprint)

module _ {Float : Type 0} where
  -- The file holds an artifact of the question, which is no infrastructure failure.
  abbrev pub IsAnswerTo : String → String × File Float → Type 0
  IsAnswerTo id (name, unreadable) = ⊥
  IsAnswerTo id (name, stored a) = (a.question_id ≡ id) × (is_infrastructure a.error_type ≡ false)

  -- Some file of the directory holds one.
  abbrev pub IsAnswered : List (String × File Float) → String → Type 0
  IsAnswered files id = Any (IsAnswerTo id) files

  answered_in_iff :
      (files : List (String × File Float)) (id : String)
      → In id (answered_in files) ↔ IsAnswered files id
  unfolding answered_in
  answered_in_iff [] id = (λ i. i, λ a. a)
  answered_in_iff ((name, unreadable) ∷ files) id =
      let rest = answered_in_iff files id in
      (λ i. inr (rest.0 i), λ a. elim a [ inl n ↦ elim n [ ] | inr b ↦ rest.1 b ])
  answered_in_iff ((name, stored a) ∷ files) id =
      let rest = answered_in_iff files id in
      elim (Bool-cases (is_infrastructure a.error_type)) [
        | inl e ↦ rw e (
          λ i. inr (rest.0 i),
          λ h. elim h [ inl both ↦ absurd (false≢true (sym both.1)) | inr b ↦ rest.1 b ],
        )
        | inr e ↦ rw e (
          λ i. elim i [ inl same ↦ inl (same, refl) | inr j ↦ inr (rest.0 j) ],
          λ h. elim h [ inl both ↦ inl both.0 | inr b ↦ inr (rest.1 b) ],
        )
      ]

  resume_at_lem :
      (fingerprint : String) (manifest : Option String) (files : List (String × File Float))
      → (IsOther fingerprint manifest
          × (resume_at fingerprint (or_new manifest fingerprint) files ≡ none))
        ⊎ (IsSame fingerprint manifest
            × (resume_at fingerprint (or_new manifest fingerprint) files
                ≡ some (answered_in files)))
  unfolding resume_at
  resume_at_lem fingerprint none files = inr (inl refl, rw (eq_refl fingerprint) refl)
  resume_at_lem fingerprint (some existing) files = elim (Bool-cases (existing == fingerprint)) [
    | inl e ↦ inr (inr (ap some ((eq_iff existing fingerprint).0 e)), rw e refl)
    | inr e ↦ inl (
      (existing, refl, λ same. false≢true (sym e ∙ (eq_iff existing fingerprint).1 same)),
      rw e refl,
    )
  ]

  -- What a run that has begun in a directory finds there.
  pub resume_lem :
      (store : RunStore) (d : Directory Float)
      → (IsOther (config_fingerprint store.hashing store.run_manifest) d.manifest
          × (resume store (start store d) ≡ none))
        ⊎ (IsSame (config_fingerprint store.hashing store.run_manifest) d.manifest
            × (resume store (start store d) ≡ some (answered_in d.files)))
  unfolding resume start
  resume_lem store d =
      resume_at_lem (config_fingerprint store.hashing store.run_manifest) d.manifest d.files

module _ (P : Platform) (files : List (String × File P.Float)) where
  -- The questions without an answer in the files, in their order.
  abbrev pub AreUnanswered : List (Question P) → List (Question P) → Type 0
  AreUnanswered [] todo = todo ≡ []
  AreUnanswered (q ∷ questions) todo =
      (IsAnswered files q.question_id × AreUnanswered questions todo)
      ⊎ ((¬ IsAnswered files q.question_id)
          × ((rest : List (Question P)) × (todo ≡ q ∷ rest) × AreUnanswered questions rest))

  pub pending-AreUnanswered :
      (questions : List (Question P))
      → AreUnanswered questions (pending P (answered_in files) questions)
  unfolding pending
  pending-AreUnanswered [] = refl
  pending-AreUnanswered (q ∷ questions) =
      let rest = pending-AreUnanswered questions in
      let same = answered_in_iff files q.question_id in
      let found = contains_iff q.question_id (answered_in files) in
      elim (Bool-cases (contains q.question_id (answered_in files))) [
        | inl e ↦ rw e (inl (same.0 (found.0 e), rest))
        | inr e ↦ rw e (inr ((λ h. false≢true (sym e ∙ found.1 (same.1 h))), (_, refl, rest)))
      ]
