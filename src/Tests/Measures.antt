-- ===== src/Tests/Measures.antt =====
-- adapters/llm, evals and benchmark at concrete inputs.
use mcp_text_to_sql_agent.Llm.Fallback.Active.{IsActive}
use mcp_text_to_sql_agent.Prelude.{
  ◌≤◌, arith, ℕ, ◌+◌, String, ◌≡◌, ◌↔◌, refl, Bool, true, false, some, none, List, [], ◌∷◌, ◌&&◌,
  length, contains, lookup, map, all, ltb, if◌then◌else◌, Option,
}
use mcp_text_to_sql_agent.Exceptions.{raised, llm_quota_exceeded_error}
use mcp_text_to_sql_agent.Llm.Fallback.{State, Completion, answered, threw, complete}
use mcp_text_to_sql_agent.Llm.Fallback.Attempts.{IsTried, complete-IsTried}
use mcp_text_to_sql_agent.Evals.Taxonomy.{Comparison, match}
use mcp_text_to_sql_agent.Benchmark.Splits.{
  SplitPolicy, Library, Question, train, assign, leaked_databases, is_trained_on,
}
use mcp_text_to_sql_agent.Benchmark.Splits.Membership.{split_of}
use mcp_text_to_sql_agent.Benchmark.Splits.Leaks.{leaked_databases_iff}

-- The first model is out of quota, and the second answers.
abbrev reply : List ℕ → ℕ → String → Completion String
reply asked index question =
    if ltb index 1 then threw (raised llm_quota_exceeded_error "spent") else answered "select 1"

abbrev two_models : State
two_models = record {
  chain = record {
    clients =
        record { model = "large"; supports_tool_calling = true }
        ∷ record { model = "small"; supports_tool_calling = true }
        ∷ [];
    active = 0;
  };
  asked = [];
}

complete-IsTried_example :
    IsTried reply two_models.chain "how many?" [] 0 2 (complete reply "how many?" two_models)
complete-IsTried_example = complete-IsTried reply "how many?" two_models

abbrev matching : Comparison
matching = record { verdict = match; matched = true }

-- Shares in basis points, and a hash that is the length of the text.
abbrev library : Library
library = record {
  Float = ℕ;
  add = λ a b. a + b;
  times = λ share n. share;
  below = ltb;
  blake2b = λ text. mcp_text_to_sql_agent.Prelude.count text;
  text_lt =
      λ a b. ltb (mcp_text_to_sql_agent.Prelude.count a) (mcp_text_to_sql_agent.Prelude.count b);
}

abbrev policy : SplitPolicy ℕ
policy = record { train = 7000; dev = 1500; held_out = 1500; seed = "t2sql-v1"; smoke = 250 }

abbrev databases : List String
databases = "concert_singer" ∷ "pets_1" ∷ []

leaked_databases_iff_example :
    contains "pets_1" (leaked_databases (assign library policy databases []) databases) ≡ (
      contains "pets_1" databases
      && (contains "pets_1" databases && is_trained_on (split_of library policy [] "pets_1")))
leaked_databases_iff_example = leaked_databases_iff library policy [] databases databases "pets_1"

abbrev question : Question
question = record { question_id = "q1"; db_id = "pets_1"; split = train; rest = "" }

two_models-IsActive : IsActive two_models
two_models-IsActive = omega arith
