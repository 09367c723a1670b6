-- ===== src/Database.antt =====
-- One short transaction on a read-only connection, as the validator and the executor run it:
-- `with conn.transaction(), conn.cursor() as cur`, the timeout, one statement, and the rows.
-- The first failure leaves the block; the context manager's rollback is the driver's.
pub mod Laws
use mcp_text_to_sql_agent.Prelude.{ℕ, String, List, [], ◌∷◌, ◌++◌}
use mcp_text_to_sql_agent.Platform.{
  Platform, Action, begin, set_timeout, run, commit, Fetched, Outcome, done, failed,
}

-- What a connection was sent so far.
abbrev pub Sent : Type 0
Sent = List Action

pub record Ran (P : Platform) : Type 0 where
  pub outcome : Outcome P.Float
  pub sent : Sent

module _ (P : Platform) where
  open P use {Float, answer}

  -- The end of the block: the rows are those of the statement.
  unfoldable pub after_commit : Fetched Float → Outcome Float → Sent → Ran P
  after_commit rows (failed e) sent = record { outcome = failed e; sent = sent }
  after_commit rows (done _) sent = record { outcome = done rows; sent = sent }

  unfoldable pub after_run : Outcome Float → Sent → Ran P
  unfolding after_commit
  after_run (failed e) sent = record { outcome = failed e; sent = sent }
  after_run (done rows) sent = after_commit rows (answer sent commit) (sent ++ commit ∷ [])

  unfoldable pub after_timeout : String → Outcome Float → Sent → Ran P
  unfolding after_run
  after_timeout statement (failed e) sent = record { outcome = failed e; sent = sent }
  after_timeout statement (done _) sent =
      after_run (answer sent (run statement)) (sent ++ run statement ∷ [])

  unfoldable pub after_begin : ℕ → String → Outcome Float → Sent → Ran P
  unfolding after_timeout
  after_begin timeout statement (failed e) sent = record { outcome = failed e; sent = sent }
  after_begin timeout statement (done _) sent =
      after_timeout statement (answer sent (set_timeout timeout)) (sent ++ set_timeout timeout ∷ [])

  unfoldable pub in_transaction : ℕ → String → Sent → Ran P
  unfolding after_begin
  in_transaction timeout statement sent =
      after_begin timeout statement (answer sent begin) (sent ++ begin ∷ [])
