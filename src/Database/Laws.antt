-- ===== src/Database/Laws.antt =====
-- What a transaction sends, and when it yields rows.
use mathlib.Core.List.{append_assoc}
use mcp_text_to_sql_agent.Prelude.{ℕ, String, ◌≡◌, refl, List, [], ◌∷◌, ◌++◌, take}
use mcp_text_to_sql_agent.Platform.{
  Platform, Action, begin, set_timeout, run, commit, Fetched, Outcome, done, failed,
}
use mcp_text_to_sql_agent.Database.{
  Sent, Ran, after_commit, after_run, after_timeout, after_begin, in_transaction,
}

-- The actions of a transaction that nothing interrupts.
abbrev pub transaction_actions : ℕ → String → List Action
transaction_actions timeout statement = begin ∷ set_timeout timeout ∷ run statement ∷ commit ∷ []

-- The rows of a call are those that the database gave for its statement.
abbrev pub AnsweredBy : (P : Platform) → String → Outcome P.Float → Type 0
AnsweredBy P statement (failed e) = Unit
AnsweredBy P statement (done rows) = (before : Sent) × (P.answer before (run statement) ≡ done rows)

-- A prefix of the actions was sent, and rows come from the statement.
abbrev pub IsTransaction : (P : Platform) → ℕ → String → Sent → Ran P → Type 0
IsTransaction P timeout statement sent r =
    ((n : ℕ) × (r.sent ≡ sent ++ take n (transaction_actions timeout statement)))
    × AnsweredBy P statement r.outcome

module _ (P : Platform) (timeout : ℕ) (statement : String) (sent : Sent) where
  abbrev s1 : Sent
  s1 = sent ++ begin ∷ []

  abbrev s2 : Sent
  s2 = s1 ++ set_timeout timeout ∷ []

  abbrev s3 : Sent
  s3 = s2 ++ run statement ∷ []

  commit_lem :
      (rows : Fetched P.Float) (o : Outcome P.Float)
      → P.answer s2 (run statement) ≡ done rows
      → IsTransaction P timeout statement sent (after_commit P rows o (s3 ++ commit ∷ []))
  unfolding after_commit
  commit_lem rows (failed e) h = ((4, simp append_assoc), tt)
  commit_lem rows (done _) h = ((4, simp append_assoc), (s2, h))

  run_lem :
      (o : Outcome P.Float)
      → P.answer s2 (run statement) ≡ o
      → IsTransaction P timeout statement sent (after_run P o s3)
  unfolding after_run
  run_lem (failed e) h = ((3, simp append_assoc), tt)
  run_lem (done rows) h = commit_lem rows (P.answer s3 commit) h

  timeout_lem :
      (o : Outcome P.Float)
      → IsTransaction P timeout statement sent (after_timeout P statement o s2)
  unfolding after_timeout
  timeout_lem (failed e) = ((2, simp append_assoc), tt)
  timeout_lem (done _) = run_lem (P.answer s2 (run statement)) refl

  begin_lem :
      (o : Outcome P.Float)
      → IsTransaction P timeout statement sent (after_begin P timeout statement o s1)
  unfolding after_begin
  begin_lem (failed e) = ((1, refl), tt)
  begin_lem (done _) = timeout_lem (P.answer s1 (set_timeout timeout))

  -- Whatever the database answers, a transaction sends its actions in order, up to the first that
  -- fails, and yields no rows but those of its own statement.
  pub in_transaction-IsTransaction :
      IsTransaction P timeout statement sent (in_transaction P timeout statement sent)
  unfolding in_transaction
  in_transaction-IsTransaction = begin_lem (P.answer sent begin)
