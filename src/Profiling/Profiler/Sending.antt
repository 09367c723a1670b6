-- ===== src/Profiling/Profiler/Sending.antt =====
-- profiling/profiler.py: what holds of the statements of a step, holds of those of a method.
use mcp_text_to_sql_agent.Prelude.{
  Option, none, some, [], ◌∷◌, ◌++◌, All, All-append, ◌≡◌, inl, inr, refl, Bool-cases,
}
use mcp_text_to_sql_agent.Platform.{Platform}
use mcp_text_to_sql_agent.Profiling.Statements.{
  Connection, Sent, Result, returned, raised, Ran, and_then, fetched, control, accepted, Statement,
  begin, commit, set_timeout,
}
use mcp_text_to_sql_agent.Profiling.Profiler.Column.{
  Profiler, in_transaction, after_begin, run_statement, after_rows, return_rows,
}

-- What is sent stays within a predicate.
module _ (Q : Statement → Type 0) where
  pub fetched-keeps :
      {A : Type 0} (rows : Option A) (s : Sent) → All Q s → All Q (fetched rows s).sent
  unfolding fetched
  fetched-keeps none s h = h
  fetched-keeps (some rows) s h = h

  pub and_then-keeps :
      {A B : Type 0} (r : Ran A) (next : A → Sent → Ran B)
      → All Q r.sent
      → ((a : A) (s : Sent) → r.result ≡ returned a → All Q s → All Q (next a s).sent)
      → All Q (and_then r.result r.sent next).sent
  unfolding and_then
  and_then-keeps r next h keep = result-keeps r.result refl
    where
      result-keeps : (t : Result _) → r.result ≡ t → All Q (and_then t r.sent next).sent
      result-keeps (returned a) e = keep a r.sent e h
      result-keeps (raised e) _ = h

  pub sends : (s : Sent) (st : Statement) → All Q s → Q st → All Q (s ++ st ∷ [])
  sends s st h q = All-append Q s (st ∷ []) h (q, tt)

  pub control-keeps :
      (conn : Connection) (st : Statement) (s : Sent)
      → All Q s
      → Q st
      → All Q (control conn st s).sent
  unfolding control accepted
  control-keeps conn st s h q = elim (Bool-cases (conn.accepts s st)) [
    | inl e ↦ rw e (sends s st h q)
    | inr e ↦ rw e (sends s st h q)
  ]

module _ (P : Platform) (self : Profiler P) (Q : Statement → Type 0) (opens : Q begin)
    (closes : Q commit) (limits : Q (set_timeout self.settings.profile_timeout_ms)) where
  open self use {conn, settings}

  after_rows-keeps :
      {A : Type 0} (rows : A) (s : Sent) → All Q s → All Q (after_rows P self rows s).sent
  unfolding after_rows
  after_rows-keeps rows s h =
      and_then-keeps Q (control conn commit s) (return_rows P self rows)
        (control-keeps Q conn commit s h closes) λ _ s' _ h'. h'

  run_statement-keeps :
      {A : Type 0} (st : Statement) (rows : Sent → Option A) (u : Unit {0}) (s : Sent)
      → Q st
      → All Q s
      → All Q (run_statement P self st rows u s).sent
  unfolding run_statement
  run_statement-keeps st rows u s q h =
      and_then-keeps Q (fetched (rows s) (s ++ st ∷ [])) (after_rows P self)
        (fetched-keeps Q (rows s) (s ++ st ∷ []) (sends Q s st h q))
        λ a s' _ h'. after_rows-keeps a s' h'

  after_begin-keeps :
      {A : Type 0} (st : Statement) (rows : Sent → Option A) (u : Unit {0}) (s : Sent)
      → Q st
      → All Q s
      → All Q (after_begin P self st rows u s).sent
  unfolding after_begin
  after_begin-keeps st rows u s q h =
      and_then-keeps Q (control conn (set_timeout settings.profile_timeout_ms) s)
        (run_statement P self st rows)
        (control-keeps Q conn (set_timeout settings.profile_timeout_ms) s h limits)
        λ u' s' _ h'. run_statement-keeps st rows u' s' q h'

  pub in_transaction-keeps :
      {A : Type 0} (st : Statement) (rows : Sent → Option A) (s : Sent)
      → Q st
      → All Q s
      → All Q (in_transaction P self st rows s).sent
  unfolding in_transaction
  in_transaction-keeps st rows s q h =
      and_then-keeps Q (control conn begin s) (after_begin P self st rows)
        (control-keeps Q conn begin s h opens) λ u s' _ h'. after_begin-keeps st rows u s' q h'
