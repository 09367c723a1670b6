-- ===== src/Api/Query/Stream.antt =====
-- api/query.py: the order of the events of a stream, and what its last event says.
use mcp_text_to_sql_agent.Prelude.{
  ℕ, String, ◌≡◌, refl, Bool, true, false, not, Option, none, some, List, [], ◌∷◌, ◌++◌, map, All,
  All-append, append-nil, sym, subst,
}
use mcp_text_to_sql_agent.Platform.{Platform}
use mcp_text_to_sql_agent.Answering.{
  Reply, returned, threw, Candidate, QuestionAnswerer, candidate, after_retrieve, after_generate,
}
use mcp_text_to_sql_agent.Execution.Executor.{
  SqlExecutor, QueryResult, World, Result, ok, err, explain, execute,
}
use mcp_text_to_sql_agent.Api.Query.{
  QueryRequest, QueryStep, Answer, ServerSentEvent, stage, sql, rows, finished, error, Work,
  after_explain, after_execute, with_candidate, after_candidate, answer_question, terminal_event,
  produce, is_some, timed, caller_of,
}

module _ (P : Platform) where
  -- An event that announces progress.
  abbrev pub IsProgress : ServerSentEvent P → Type 0
  IsProgress (stage name status) = Unit
  IsProgress (sql text attempt) = Unit
  IsProgress (rows columns data_rows truncated) = Unit
  IsProgress (finished row_count executed steps usage) = ⊥
  IsProgress (error code message request_id) = ⊥

  -- The events after the one that carries the query, by the outcome of the work: none if it failed;
  -- else the phase that was asked for, and after an execution its rows.
  abbrev pub IsAfter : Bool → Reply (Answer P) → List (ServerSentEvent P) → Type 0
  IsAfter explain_only (threw f) events = events ≡ []
  IsAfter explain_only (returned answer) events =
      (is_some answer.result ≡ not explain_only) × elim answer.result [
        | none ↦ events ≡ stage "validate" "ok" ∷ []
        | some result ↦
            events ≡ stage "execute" "ok" ∷ rows result.columns result.rows result.truncated ∷ []
      ]

  -- The events by what `generate` does: the context was retrieved before.
  abbrev pub IsGenerated :
      Bool → Reply Candidate → Reply (Answer P) → List (ServerSentEvent P) → Type 0
  IsGenerated explain_only (threw f) reply events =
      (reply ≡ threw f) × (events ≡ stage "retrieve" "ok" ∷ [])
  IsGenerated explain_only (returned c) reply events =
      (after : List (ServerSentEvent P)) × (events
        ≡ stage "retrieve" "ok" ∷ stage "generate" "ok" ∷ sql c.sql 1 ∷ after)
      × IsAfter explain_only reply after

  module _ (answerer : QuestionAnswerer) (question : String) where
    -- The events by what `retrieve` does.
    abbrev pub IsRetrieved :
        Bool → Reply answerer.Context → Reply (Answer P) → List (ServerSentEvent P) → Type 0
    IsRetrieved explain_only (threw f) reply events = (reply ≡ threw f) × (events ≡ [])
    IsRetrieved explain_only (returned context) reply events =
        IsGenerated explain_only (answerer.generate question context) reply events

    -- A queue is the events of the phases in their order, one terminal event for the outcome, and
    -- None.
    abbrev pub IsStream :
        (Reply (Answer P) → ServerSentEvent P)
        → Bool
        → Work P
        → List (Option (ServerSentEvent P))
        → Type 0
    IsStream terminal explain_only work queue =
        (queue ≡ map some work.events ++ some (terminal work.reply) ∷ none ∷ [])
        × All IsProgress work.events
        × IsRetrieved explain_only (answerer.retrieve question) work.reply work.events

  module _ (since : ℕ → P.Float) (answerer : QuestionAnswerer) (x : SqlExecutor P) where
    -- The events of a work that had a query: those before it, and those after it.
    abbrev IsContinued : Bool → List (ServerSentEvent P) → Work P → Type 0
    IsContinued explain_only before work =
        (after : List (ServerSentEvent P)) × (work.events ≡ before ++ after)
        × All IsProgress after
        × IsAfter explain_only work.reply after

    after_explain-IsContinued :
        (c : Candidate) (events : List (ServerSentEvent P)) (steps : List (QueryStep P.Float))
        (r : Result (Unit {0}) × World)
        → IsContinued true events (after_explain P since answerer x c events steps r)
    unfolding after_explain
    after_explain-IsContinued c events steps (err e, w) = ([], sym (append-nil events), tt, refl)
    after_explain-IsContinued c events steps (ok done, w) = (_, refl, (tt, tt), (refl, refl))

    after_execute-IsContinued :
        (c : Candidate) (events : List (ServerSentEvent P)) (steps : List (QueryStep P.Float))
        (r : Result (QueryResult P) × World)
        → IsContinued false events (after_execute P since answerer x c events steps r)
    unfolding after_execute
    after_execute-IsContinued c events steps (err e, w) = ([], sym (append-nil events), tt, refl)
    after_execute-IsContinued c events steps (ok result, w) =
        (_, refl, (tt, (tt, tt)), (refl, refl))

    with_candidate-IsContinued :
        (request : QueryRequest) (id : String) (c : Candidate) (events : List (ServerSentEvent P))
        (explain_only : Bool) (w : World)
        → IsContinued explain_only events
            (with_candidate P since answerer x request id c events explain_only w)
    unfolding with_candidate
    with_candidate-IsContinued request id c events true w =
        after_explain-IsContinued c events (timed P since answerer x [] "answer")
          (explain P x (caller_of none none) c.sql request.options.timeout_ms w)
    with_candidate-IsContinued request id c events false w =
        after_execute-IsContinued c events (timed P since answerer x [] "answer") (
          execute P x (caller_of (some request.question) (some id)) c.sql
            (record {
              max_rows = request.options.max_rows;
              timeout_ms = request.options.timeout_ms;
            })
            w)

    -- The work from what the answerer was found to do.
    abbrev work_of : QueryRequest → String → World → List String × Reply Candidate → Work P
    work_of request id w composed =
        after_candidate P since answerer x request id (map (λ name. stage name "ok") composed.0)
          composed.1 w

    generated_lem :
        (request : QueryRequest) (id : String) (w : World) (g : Reply Candidate)
        → All IsProgress (work_of request id w (after_generate answerer g)).events
          × IsGenerated request.options.explain_only g
              (work_of request id w (after_generate answerer g)).reply
              (work_of request id w (after_generate answerer g)).events
    unfolding after_generate after_candidate
    generated_lem request id w (threw f) = ((tt, tt), (refl, refl))
    generated_lem request id w (returned c) =
        let before = stage "retrieve" "ok" ∷ stage "generate" "ok" ∷ sql c.sql 1 ∷ [] in
        let (after, same, progress, ended) =
          with_candidate-IsContinued request id c before request.options.explain_only w in
        (
          subst (All IsProgress) (sym same)
              (All-append IsProgress before after (tt, (tt, (tt, tt))) progress),
          (after, same, ended),
        )

    retrieved_lem :
        (request : QueryRequest) (id : String) (w : World) (r : Reply answerer.Context)
        → All IsProgress (work_of request id w (after_retrieve answerer request.question r)).events
          × IsRetrieved answerer request.question request.options.explain_only r
              (work_of request id w (after_retrieve answerer request.question r)).reply
              (work_of request id w (after_retrieve answerer request.question r)).events
    unfolding after_retrieve
    retrieved_lem request id w (threw f) = unfold after_candidate in (tt, (refl, refl))
    retrieved_lem request id w (returned context) =
        generated_lem request id w (answerer.generate request.question context)

    -- Every stream that is not cancelled ends: whatever fails, the queue holds the events of the
    -- phases that succeeded in their order (retrieve, generate, the query, then validate for an
    -- `explain_only` request, and execute and the rows of the result for any other), then exactly one
    -- terminal event, for the outcome of the work, then None.
    pub produce-IsStream :
        (request : QueryRequest) (id : String) (w : World)
        → IsStream answerer request.question
            (terminal_event P since answerer x id)
            request.options.explain_only
            (answer_question P since answerer x request id w)
            (produce P since answerer x request id w).0
    unfolding produce answer_question candidate
    produce-IsStream request id w =
        let (progress, phases) = retrieved_lem request id w (answerer.retrieve request.question) in
        (refl, progress, phases)
