-- ===== src/Evals/Taxonomy.antt =====
-- evals/taxonomy.py: why a question failed.
pub mod Causes
pub mod Counts
use mcp_text_to_sql_agent.Prelude.{
  ℕ, zero, suc, String, ◌==◌, Bool, true, false, not, ◌&&◌, Option, none, some, List, [], ◌∷◌, map,
  first, contains, if◌then◌else◌, lookup,
}
use mcp_text_to_sql_agent.Platform.{Platform}

-- `no_failure` is the source's NONE.
pub data FailureCategory : Type 0 where
  no_failure retrieval_miss unknown_identifier syntax_unrecoverable not_read_only : FailureCategory
  timeout row_order wrong_shape wrong_values gold_error unanswerable : FailureCategory
  execution_failed infrastructure uncategorised : FailureCategory

-- `category.value`
unfoldable pub value : FailureCategory → String
value no_failure = "none"
value retrieval_miss = "retrieval_miss"
value unknown_identifier = "unknown_identifier"
value syntax_unrecoverable = "syntax_unrecoverable"
value not_read_only = "not_read_only"
value timeout = "timeout"
value row_order = "row_order"
value wrong_shape = "wrong_shape"
value wrong_values = "wrong_values"
value gold_error = "gold_error"
value unanswerable = "unanswerable"
value execution_failed = "execution_failed"
value infrastructure = "infrastructure"
value uncategorised = "uncategorised"

-- The members, in the order of their definition.
abbrev pub every_category : List FailureCategory
every_category =
    no_failure ∷ retrieval_miss ∷ unknown_identifier ∷ syntax_unrecoverable ∷ not_read_only
    ∷ timeout ∷ row_order ∷ wrong_shape ∷ wrong_values ∷ gold_error ∷ unanswerable
    ∷ execution_failed ∷ infrastructure ∷ uncategorised ∷ []

-- evals/comparison.py: `Verdict` and `Comparison`, as far as `classify` reads it.
pub data Verdict : Type 0 where
  match shape_mismatch value_mismatch order_mismatch no_column_bijection : Verdict

pub record Comparison : Type 0 where
  pub verdict : Verdict
  pub matched : Bool

-- evals/recall.py: `RecallResult`, as far as `classify` reads it.
pub record RecallResult (Float : Type 0) : Type 0 where
  pub at_k : List (ℕ × Float)
  pub skipped : Bool

abbrev pub infrastructure_types : List String
infrastructure_types =
    "llm_failed" ∷ "scope_unavailable" ∷ "retrieval_failed" ∷ "internal_error" ∷ []

abbrev pub from_error_type : List (String × FailureCategory)
from_error_type =
    ("unknown_identifier", unknown_identifier)
    ∷ ("syntax_error", syntax_unrecoverable)
    ∷ ("multiple_statements", syntax_unrecoverable)
    ∷ ("explain_failed", syntax_unrecoverable)
    ∷ ("not_read_only", not_read_only)
    ∷ ("statement_timeout", timeout)
    ∷ ("permission_denied", not_read_only)
    ∷ ("table_not_found", unknown_identifier)
    ∷ ("cost_exceeded", timeout)
    ∷ ("execution_failed", execution_failed)
    ∷ ("llm_failed", infrastructure)
    ∷ ("scope_unavailable", infrastructure)
    ∷ ("retrieval_failed", infrastructure)
    ∷ ("internal_error", infrastructure)
    ∷ []

-- `_FROM_VERDICT.get(verdict, UNCATEGORISED)`
unfoldable pub from_verdict : Verdict → FailureCategory
from_verdict order_mismatch = row_order
from_verdict shape_mismatch = wrong_shape
from_verdict value_mismatch = wrong_values
from_verdict no_column_bijection = wrong_values
from_verdict match = uncategorised

unfoldable pub is_infrastructure : Option String → Bool
is_infrastructure none = false
is_infrastructure (some error_type) = contains error_type infrastructure_types

abbrev pub or_uncategorised : Option FailureCategory → FailureCategory
or_uncategorised none = uncategorised
or_uncategorised (some c) = c

-- `_FROM_ERROR_TYPE.get(error_type, UNCATEGORISED)`
unfoldable pub category_of_error : String → FailureCategory
category_of_error error_type = elim (lookup error_type from_error_type) [
  | none ↦ uncategorised
  | some c ↦ c
]

-- `if error_type:`
abbrev pub given : Option String → Option String
given none = none
given (some t) = if t == "" then none else some t

abbrev pub is_unanswerable : Option String → Bool
is_unanswerable none = false
is_unanswerable (some error_type) = error_type == "unanswerable"

-- The last branches: without an error, the comparison decides.
unfoldable pub of_comparison : Option Comparison → FailureCategory
of_comparison none = uncategorised
of_comparison (some c) = if c.matched then no_failure else from_verdict c.verdict

unfoldable pub of_error : Option String → Option Comparison → FailureCategory
of_error none comparison = of_comparison comparison
of_error (some error_type) comparison = category_of_error error_type

module _ (P : Platform) where
  -- `max(values)`, of the values after the first.
  abbrev pub max_of : P.Float → List (ℕ × P.Float) → P.Float
  max_of best [] = best
  max_of best ((k, v) ∷ values) = max_of (if P.float_lt best v then v else best) values

  -- Whether recall is known and below the floor.
  unfoldable pub is_missed : Option (RecallResult P.Float) → P.Float → Bool
  is_missed none floor = false
  is_missed (some recall) floor = elim recall.at_k [
    | [] ↦ false
    | (k, v) ∷ values ↦ not recall.skipped && P.float_lt (max_of v values) floor
  ]

  unfoldable pub classify :
      Option Comparison
      → Option (RecallResult P.Float)
      → Option String
      → (gold_failed : Bool) → (recall_floor : P.Float) → FailureCategory
  unfolding is_infrastructure is_missed of_error
  classify comparison recall error_type gold_failed recall_floor =
      if gold_failed
      then gold_error
      else if is_infrastructure error_type
      then infrastructure
      else if is_unanswerable error_type
      then unanswerable
      else if is_missed recall recall_floor
      then retrieval_miss
      else of_error (given error_type) comparison

-- `FailureCategory(value)`, or UNCATEGORISED for its ValueError.
unfoldable pub parse_category : String → FailureCategory
unfolding value
parse_category text = elim (first (λ c. value c == text) every_category) [
  | none ↦ uncategorised
  | some c ↦ c
]

-- `tally[key] += 1`
unfoldable pub bump : String → List (String × ℕ) → List (String × ℕ)
bump key [] = []
bump key ((k, n) ∷ tally) = if k == key then (k, suc n) ∷ tally else (k, n) ∷ bump key tally

unfoldable pub count_into : List (String × ℕ) → List FailureCategory → List (String × ℕ)
unfolding bump value
count_into tally [] = tally
count_into tally (c ∷ cs) = count_into (bump (value c) tally) cs

-- `dict.fromkeys((c.value for c in FailureCategory), 0)`
unfoldable pub zeros : List (String × ℕ)
unfolding value
zeros = map (λ c. (value c, 0)) every_category

unfoldable pub counts : List FailureCategory → List (String × ℕ)
unfolding count_into zeros
counts categories = count_into zeros categories
