-- ===== src/Tests/Runs.antt =====
-- evals/runner.py and evals/artifacts.py: a run against a provider that is down.
use mcp_text_to_sql_agent.Prelude.{
  Any, ◌↔◌, true, ℕ, String, none, some, List, [], ◌∷◌, ◌≡◌, ◌≤◌, ◌+◌, refl, arith, ◌⧺◌, count,
}
use mcp_text_to_sql_agent.Evals.Taxonomy.{match}
use mcp_text_to_sql_agent.Evals.Recall.{is_found, Target}
use mcp_text_to_sql_agent.Evals.Recall.Credit.{is_found_iff}
use mcp_text_to_sql_agent.Evals.Artifacts.{
  Hashing, RunStore, Directory, QuestionArtifact, artifact_filename, start, record_artifact,
}
use mcp_text_to_sql_agent.Evals.Artifacts.Names.{IsSafe, artifact_filename-IsSafe}
use mcp_text_to_sql_agent.Evals.Runner.{Question, Attempt, Harness, Progress, evaluate, run}
use mcp_text_to_sql_agent.Evals.Runner.Halting.{AreFailures}
use mcp_text_to_sql_agent.Evals.Runner.Walls.{run-ends_after_wall}
use mcp_text_to_sql_agent.Evals.Runner.Summary.{summarise, summarise-partition}
use mcp_text_to_sql_agent.Evals.Taxonomy.Counts.{total}
use mcp_text_to_sql_agent.Tests.Sample.{platform}

abbrev hash : Hashing
hash = record { hash_material = λ m. m.model; short_digest = λ text. "0a1b2c3d" }

abbrev store : RunStore
store = record {
  hashing = hash;
  run_manifest = record {
    run_id = "r1";
    dataset = "spider";
    split = "dev";
    model = "small";
    retriever_model_version = "hash";
    prompt_version = "1";
    commit = "abc";
    seed = 0;
    started_at = "";
    notes = "";
    baseline = "";
    code_digest = "";
  };
}

abbrev failed_attempt : Attempt platform
failed_attempt = record {
  sql = none;
  error_type = some "llm_failed";
  error_message = "quota";
  validation_attempts = 0;
  retrieved = [];
  input_tokens = 0;
  output_tokens = 0;
  answering_model = "";
}

abbrev harness : Harness platform
harness = record {
  run_query = λ moment sql db_id. some [];
  answerer = λ moment q. failed_attempt;
  raises = λ moment q. none;
  compare = λ predicted gold sql. record { verdict = match; matched = true };
  extract_gold_elements =
      λ sql. record { tables = []; columns = []; unresolved = []; parse_failed = true };
  ratio = λ a b. a;
  duration_ms = λ n. 0;
  recall_floor = 1;
}

abbrev question_of : String → Question platform
question_of id = record {
  question_id = id;
  question = "How many?";
  gold_sql = "select 1";
  db_id = "shop";
}

abbrev questions : List (Question platform)
questions = question_of "q1" ∷ question_of "q2" ∷ question_of "q3" ∷ []

abbrev empty : Directory ℕ
empty = record { manifest = none; files = [] }

abbrev wall : List (QuestionArtifact ℕ)
wall =
    evaluate platform harness 0 (question_of "q1")
    ∷ evaluate platform harness 1 (question_of "q2")
    ∷ []

abbrev halted : Progress platform
halted = record {
  recorded = wall;
  directory =
      record_artifact store (evaluate platform harness 1 (question_of "q2")) (
        record_artifact store (evaluate platform harness 0 (question_of "q1")) (start store empty));
}

-- Two failures in a row stop the run before the third question.
run-halted : run platform harness store (some 2) questions empty ≡ some halted
unfolding run
run-halted = refl

wall-AreFailures : AreFailures platform wall
unfolding evaluate
wall-AreFailures = (refl, (refl, tt))

run-ends_after_wall_example : ◌≡◌ {A = List (QuestionArtifact ℕ)} [] []
run-ends_after_wall_example =
    run-ends_after_wall platform harness store 2 questions empty halted [] wall [] (omega arith)
      run-halted refl wall-AreFailures (omega arith)

summarise-partition_example :
    ((summarise wall).scored + (summarise wall).gold_errors + (summarise wall).infrastructure_errors
      ≡ (summarise wall).total)
    × ((summarise wall).matched ≤ (summarise wall).scored)
    × (total (summarise wall).failures ≡ (summarise wall).total)
summarise-partition_example = summarise-partition wall

artifact_filename-IsSafe_example :
    (stem : String) × (artifact_filename hash "../../etc" ≡ stem ⧺ "-" ⧺ "0a1b2c3d" ⧺ ".json")
    × IsSafe stem
    × (count stem ≤ 80)
artifact_filename-IsSafe_example = artifact_filename-IsSafe hash "../../etc"

-- Only the name of a customer was retrieved, and the email counts as found.
is_found_iff_example :
    (is_found platform (("customers", some "name") ∷ []) ("customers", some "email") ≡ true)
    ↔ Any (λ (e : Target). e.0 ≡ "customers") (("customers", some "name") ∷ [])
is_found_iff_example =
    is_found_iff platform (("customers", some "name") ∷ []) "customers" (some "email")
