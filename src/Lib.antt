-- ===== src/Lib.antt =====
-- A verification library of the text-to-SQL service: a question is answered by retrieving schema
-- context, generating one SQL statement, validating it, and executing it under limits.
--
-- Parts and files (paths from the repository's root):
--   Settings      src/core/settings.py: ExecutionSettings, ProfilingSettings and their clamps; Endpoint
--                 the check on the LLM endpoint (_assert_endpoint_is_safe), Llm LLMSettings and
--                 _split_csv, Service APISettings, Stores the others and Settings.load. Bounds,
--                 Endpoint/Safety, Llm/Keys, Service/Exposure, Stores/Loading and Csv prove.
--   Profiling     src/profiling/profiler.py: TableProfiler (Profiler; Profiler/Column for one column), its
--                 statements (Statements), and src/schema/sensitivity.py (Sensitivity). Naming,
--                 Sending, Reading, Containment, Shape, Discretion and Totality prove.
--   Schema        src/schema/models.py, and src/schema/serialization.py (Serialization): the texts
--                 that are embedded. Serialization/Bounds proves.
--   Exceptions    src/core/exceptions.py: the hierarchy, as a data type with its bases.
--   Platform      what the program calls and does not implement: sqlglot's parser and trees, psycopg's
--                 connection, PostgreSQL's JSON, floating-point numbers, Unicode case folding,
--                 difflib and the clock, as fields of one record that every definition takes.
--   Database      one transaction as src/validation/validator.py (_explain) and
--                 src/execution/executor.py (execute) run it; what was sent so far is the state.
--   Catalog       src/schema/catalog.py: SchemaCatalog and load_catalog. Laws proves.
--   Validation    src/validation/validator.py. Static has stages 1 to 4 (validate_static), ReadOnly
--                 stage 3 (_check_read_only), Identifiers stage 4 (_check_identifiers), Names its
--                 helpers, Explain stage 5 (_explain), Validator the whole (validate). Containment,
--                 Resolution, Acceptance and Planning prove.
--   Execution     src/execution/executor.py. RowLimit has apply_row_limit, Audit the audit log,
--                 Executor explain and execute. Runs, Bounds, Reparse, Trail, Traffic and
--                 Agreement prove.
--   Api           src/api/errors.py (Errors, Handlers), src/api/query.py (Admission, Query), src/api/sse.py
--                 (Sse) and src/api/middleware.py (Middleware). The modules below them prove.
--   Answering     src/answering/answerer.py: QuestionAnswerer.candidate.
--   Llm           src/adapters/llm/fallback.py: FallbackLLMClient (Fallback).
--   Mcp           src/mcp_servers/common.py: error_payload, _dispatch, to_call_result (Tools).
--   Agent         src/agent/discovery.py: ToolRegistry (Registry).
--   Evals         src/evals/taxonomy.py (Taxonomy), src/evals/recall.py (Recall: compute_recall),
--                 src/evals/artifacts.py (Artifacts: RunStore and
--                 the names of its files) and src/evals/runner.py (Runner: EvalRunner). Causes,
--                 Counts, Credit, Names, Halting, Resuming, Walls and Summary prove.
--   Benchmark     src/benchmark/splits.py (Splits).
--   Prelude       shared helpers: tests on numbers, lists, texts, integers and dicts.
--   Tests         the theorems at concrete inputs, over a small concrete platform.
--
-- How they interact: a request passes Api.Admission, Answering yields a candidate, and Api.Query
-- hands its text to Execution, which validates it again by Validation, against Catalog and through
-- Database, bounds it, runs it through Database and records it. A failure is a value of Exceptions,
-- which Api renders. State is passed explicitly: a World is what was sent to the database so far and
-- the audit trail; a Server is the admission counter, the requests in flight and the number of
-- the streams that were dropped; the fallback chain carries its active client and the clients asked. An answer of the database depends on all that was
-- sent before it, so a theorem holds for every behaviour of the database. A profile has a connection
-- of its own kind, since it composes its statements from identifiers. A run of the harness keeps its
-- directory, and the cap of Api.Admission is that of the API settings of Settings.Service.
--
-- Python's integers that may be negative are ℤ; sizes and counters are ℕ. No loop needs fuel: each is
-- recursion on a list, but for the digits of a number (its own size is enough) and the bases of a
-- class (three are enough, the hierarchy being four deep).
--
-- Not modelled: the parser, the driver, the HTTP framework and the language models themselves; log
-- lines; the reading of the environment by pydantic; the application behind the middleware, which is
-- any program; evals/comparison.py, which a run is given as a function; the cancellation of the
-- worker behind a stream; a total cost of a plan that is no number;
-- and the parts of the program that no file above names.
pub mod Prelude
pub mod Settings
pub mod Profiling
pub mod Schema
pub mod Exceptions
pub mod Platform
pub mod Database
pub mod Catalog
pub mod Validation
pub mod Execution
pub mod Api
pub mod Answering
pub mod Llm
pub mod Mcp
pub mod Agent
pub mod Evals
pub mod Benchmark
pub mod Tests
