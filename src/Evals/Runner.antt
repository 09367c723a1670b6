-- ===== src/Evals/Runner.antt =====
-- evals/runner.py: a run over a split, one question at a time, and its summary. What a question is
-- measured with (the answerer, the database, evals/comparison.py and the parser behind
-- evals/recall.py) is the parameter `Harness`.
pub mod Halting
pub mod Resuming
pub mod Walls
pub mod Summary
use Prim.Native.Nat.{◌*◌}
use mcp_text_to_sql_agent.Prelude.{
  prefix, ℕ, zero, suc, ◌+◌, String, Bool, true, false, not, ◌&&◌, ◌||◌, Option, none, some, List,
  [], ◌∷◌, length, keep, map, leb, contains, if◌then◌else◌, ◌==◌, ◌⧺◌, lookup, assign_key, join,
}
use mcp_text_to_sql_agent.Platform.{Platform, Value}
use mcp_text_to_sql_agent.Evals.Taxonomy
use mcp_text_to_sql_agent.Evals.Taxonomy.{
  match, shape_mismatch, value_mismatch, order_mismatch, no_column_bijection, FailureCategory,
  gold_error, infrastructure, is_infrastructure, classify, counts, parse_category, Verdict,
  Comparison, RecallResult,
}
use mcp_text_to_sql_agent.Evals.Recall.{GoldElements, compute_recall, default_k_values}
use mcp_text_to_sql_agent.Evals.Artifacts.{
  QuestionArtifact, Directory, RunStore, start, resume, record_artifact, artifacts,
}

-- `verdict.value`
abbrev pub verdict_value : Verdict → String
verdict_value match = "match"
verdict_value shape_mismatch = "shape_mismatch"
verdict_value value_mismatch = "value_mismatch"
verdict_value order_mismatch = "order_mismatch"
verdict_value no_column_bijection = "no_column_bijection"

abbrev pub or_text : String → String → String
or_text given default = if given == "" then default else given

-- `error_type or "execution_failed"`
abbrev pub or_execution_failed : Option String → Option String
or_execution_failed none = some "execution_failed"
or_execution_failed (some t) = some (or_text t "execution_failed")

abbrev pub matched_of : Option Comparison → Option Bool
matched_of none = none
matched_of (some c) = some c.matched

abbrev pub verdict_of : Option Comparison → String
verdict_of none = ""
verdict_of (some c) = verdict_value c.verdict

-- `self._halt_after is not None and consecutive >= self._halt_after`
unfoldable pub should_halt : Option ℕ → ℕ → Bool
should_halt none consecutive = false
should_halt (some halt_after) consecutive = leb halt_after consecutive

module _ (P : Platform) where
  open P use {Float}

  abbrev pub Rows : Type 0
  Rows = List (List (Value Float))

  -- evals/dataset.py: `Question`, as far as the runner reads it.
  pub record Question : Type 0 where
    pub question_id : String
    pub question : String
    pub gold_sql : String
    pub db_id : String

  pub record Attempt : Type 0 where
    pub sql : Option String
    pub error_type : Option String
    pub error_message : String
    pub validation_attempts : ℕ
    pub retrieved : List (String × Option String)
    pub input_tokens : ℕ
    pub output_tokens : ℕ
    pub answering_model : String

  -- What the runner is given. A call is made at a moment, and may answer otherwise at another.
  pub record Harness : Type 0 where
    -- Rows, or none if the call raises.
    pub run_query : ℕ → (sql db_id : String) → Option Rows
    -- An attempt, or the name of the class of the exception that the answerer raises.
    pub answerer : ℕ → Question → Attempt
    pub raises : ℕ → Question → Option String
    pub compare : (predicted gold : Rows) → (gold_sql : String) → Comparison
    -- `extract_gold_elements`, and `round(a / b, 4)`.
    pub extract_gold_elements : (gold_sql : String) → GoldElements
    pub ratio : ℕ → ℕ → Float
    pub duration_ms : ℕ → Float
    pub recall_floor : Float

  -- What `_execute` returns: the rows and whether the query failed.
  pub record Executed : Type 0 where
    pub rows : Rows
    pub failed : Bool

  abbrev pub executed : Option Rows → Executed
  executed none = record { rows = []; failed = true }
  executed (some rows) = record { rows = rows; failed = false }

  -- What an evaluation knows of the predicted query.
  pub record Predicted : Type 0 where
    pub rows : Rows
    pub comparison : Option Comparison
    pub error_type : Option String
    pub error_message : String

  abbrev pub internal_error : String → Attempt
  internal_error class_name = record {
    sql = none;
    error_type = some "internal_error";
    error_message = class_name;
    validation_attempts = 0;
    retrieved = [];
    input_tokens = 0;
    output_tokens = 0;
    answering_model = "";
  }

  abbrev pub attempt_or : Option String → Attempt → Attempt
  attempt_or none attempt = attempt
  attempt_or (some class_name) attempt = internal_error class_name

  abbrev pub unpredicted : Attempt → Predicted
  unpredicted attempt = record {
    rows = [];
    comparison = none;
    error_type = attempt.error_type;
    error_message = attempt.error_message;
  }

  -- What the loop recorded, in order, and the directory it left.
  pub record Progress : Type 0 where
    pub recorded : List (QuestionArtifact Float)
    pub directory : Directory Float

  abbrev pub next_count : QuestionArtifact Float → ℕ → ℕ
  next_count a consecutive = if is_infrastructure a.error_type then suc consecutive else 0

  abbrev pub with_recorded : QuestionArtifact Float → Progress → Progress
  with_recorded a p = record p { recorded = a ∷ p.recorded }

  -- `[q for q in questions if q.question_id not in done]`
  unfoldable pub pending : List String → List Question → List Question
  pending done questions = keep (λ q. not (contains q.question_id done)) questions

  module _ (harness : Harness) where
    unfoldable pub execute : ℕ → String → String → Executed
    execute moment sql db_id = executed (harness.run_query moment sql db_id)

    -- `_answer`
    unfoldable pub answer : ℕ → Question → Attempt
    answer moment q = attempt_or (harness.raises moment q) (harness.answerer moment q)

    abbrev pub predicted_from : Question → Attempt → Rows → Executed → Predicted
    predicted_from q attempt gold_rows ran =
        if ran.failed
        then record {
          rows = ran.rows;
          comparison = none;
          error_type = or_execution_failed attempt.error_type;
          error_message = or_text attempt.error_message "the generated query did not execute";
        }
        else record {
          rows = ran.rows;
          comparison = some (harness.compare ran.rows gold_rows q.gold_sql);
          error_type = attempt.error_type;
          error_message = attempt.error_message;
        }

    -- `if not gold_failed and attempt.sql:`
    unfoldable pub predict : ℕ → Question → Attempt → Executed → Option String → Predicted
    unfolding execute
    predict moment q attempt gold none = unpredicted attempt
    predict moment q attempt gold (some sql) =
        if not gold.failed && not (sql == "")
        then predicted_from q attempt gold.rows (execute moment sql q.db_id)
        else unpredicted attempt

    -- `_evaluate` of the question in this place of the run: the gold query, the answer, and the
    -- predicted query, in that order.
    unfoldable pub evaluate : ℕ → Question → QuestionArtifact Float
    unfolding execute answer predict classify compute_recall Taxonomy.value
    evaluate n q =
        let gold = execute (3 * n) q.gold_sql q.db_id in
        let attempt = answer (3 * n + 1) q in
        let recall =
          compute_recall P harness.ratio (harness.extract_gold_elements q.gold_sql)
            attempt.retrieved default_k_values in
        let predicted = predict (3 * n + 2) q attempt gold attempt.sql in
        record {
          question_id = q.question_id;
          question = q.question;
          gold_sql = q.gold_sql;
          generated_sql = attempt.sql;
          matched = matched_of predicted.comparison;
          verdict = verdict_of predicted.comparison;
          failure_category = Taxonomy.value (
              classify P predicted.comparison (some recall.result) predicted.error_type gold.failed
                harness.recall_floor);
          validation_attempts = attempt.validation_attempts;
          error_type = predicted.error_type;
          error_message = predicted.error_message;
          recall_at_k = recall.result.at_k;
          gold_element_count = recall.gold_size;
          unresolved_references = recall.unresolved_count;
          duration_ms = harness.duration_ms n;
          input_tokens = attempt.input_tokens;
          output_tokens = attempt.output_tokens;
          answering_model = attempt.answering_model;
          gold_rows = gold.rows;
          predicted_rows = predicted.rows;
          rows_truncated = false;
        }

    -- The loop of `run` from this place on.
    unfoldable pub evaluate_all :
        RunStore → Option ℕ → ℕ → ℕ → List Question → Directory Float → Progress
    unfolding evaluate record_artifact should_halt is_infrastructure
    evaluate_all store halt_after n consecutive [] d = record { recorded = []; directory = d }
    evaluate_all store halt_after n consecutive (q ∷ pending) d =
        let a = evaluate n q in
        let d' = record_artifact store a d in
        let consecutive' = next_count a consecutive in
        elim (should_halt halt_after consecutive') [
          | true ↦ record { recorded = a ∷ []; directory = d' }
          | false ↦ with_recorded a (evaluate_all store halt_after (suc n) consecutive' pending d')
        ]

    unfoldable pub run_pending :
        RunStore
        → Option ℕ
        → List Question
        → Directory Float
        → Option (List String)
        → Option Progress
    unfolding evaluate_all pending
    run_pending store halt_after questions d none = none
    run_pending store halt_after questions d (some done) =
        some (evaluate_all store halt_after 0 0 (pending done questions) d)

    -- `EvalRunner.run` up to the summary; none is the `ValueError` of `resume`.
    unfoldable pub run : RunStore → Option ℕ → List Question → Directory Float → Option Progress
    unfolding start resume run_pending
    run store halt_after questions d =
        let d' = start store d in run_pending store halt_after questions d' (resume store d')

-- `EvalRunner.__init__` refuses a limit below 1.
unfoldable pub is_legal_limit : Option ℕ → Bool
is_legal_limit none = true
is_legal_limit (some halt_after) = leb 1 halt_after
