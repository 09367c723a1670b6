-- ===== src/Answering.antt =====
-- answering/answerer.py: `QuestionAnswerer.candidate`, one question to one candidate.
use mcp_text_to_sql_agent.Prelude.{ℕ, String, Option, List, [], ◌∷◌}
use mcp_text_to_sql_agent.Api.Handlers.{Failure}

-- What a call returns or raises.
pub data Reply (A : Type 0) : Type 0 where
  returned : A → Reply A
  threw : Failure → Reply A

-- `TokenUsage`, as far as it is read: an attribute that is missing or None counts as 0.
pub record Usage : Type 0 where
  pub input_tokens : ℕ
  pub output_tokens : ℕ

pub record Candidate : Type 0 where
  pub sql : String
  pub usage : Option Usage

-- The retriever and the generator that a `QuestionAnswerer` is constructed with.
pub record QuestionAnswerer : Type 1 where
  pub Context : Type 0
  pub retrieve : String → Reply Context
  pub generate : String → Context → Reply Candidate

module _ (answerer : QuestionAnswerer) where
  -- The stages that `on_stage` is told of once the context is there, and the outcome.
  unfoldable pub after_generate : Reply Candidate → List String × Reply Candidate
  after_generate (threw f) = ("retrieve" ∷ [], threw f)
  after_generate (returned c) = ("retrieve" ∷ "generate" ∷ [], returned c)

  unfoldable pub after_retrieve : String → Reply answerer.Context → List String × Reply Candidate
  unfolding after_generate
  after_retrieve question (threw f) = ([], threw f)
  after_retrieve question (returned context) = after_generate (answerer.generate question context)

  -- `candidate`: the stages that `on_stage` is told of, and the outcome.
  unfoldable pub candidate : String → List String × Reply Candidate
  unfolding after_retrieve
  candidate question = after_retrieve question (answerer.retrieve question)
