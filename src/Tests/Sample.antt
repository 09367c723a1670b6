-- ===== src/Tests/Sample.antt =====
-- A concrete platform: a parser that knows three texts, and a database with one table of three
-- rows. Its dialect writes a query with a limit as that many marks, so that the database can read
-- the limit back.
use mcp_text_to_sql_agent.Prelude.{
  ℕ, zero, suc, ℤ, pos, String, ◌==◌, ◌≡◌, refl, ap, Bool, true, false, Option, none, some, List,
  [], ◌∷◌, ltb, show, take, length, keep, if◌then◌else◌,
}
use mcp_text_to_sql_agent.Platform.{
  Platform, NodeClass, select, drop_node, table_node, column, literal, limit_node, Value, number,
  Action, run, Outcome, done, Parsed, statements, sqlglot_error, list, dict, cons, nil, field, end,
}
use mcp_text_to_sql_agent.Settings.{ExecutionSettings}
use mcp_text_to_sql_agent.Catalog.{SchemaCatalog}
use mcp_text_to_sql_agent.Validation.Validator.{SqlValidator}
use mcp_text_to_sql_agent.Execution.Audit.{Caller}
use mcp_text_to_sql_agent.Execution.Executor.{SqlExecutor, World, Limits}

-- `SELECT id FROM orders`, with a limit or without, its parts, and `DROP TABLE orders`.
pub data Node : Type 0 where
  query : Option ℕ → Node
  orders id dropped : Node
  limit_of literal_of : ℕ → Node

abbrev pub is_node : Node → NodeClass → Bool
is_node (query n) select = true
is_node orders table_node = true
is_node id column = true
is_node dropped drop_node = true
is_node (limit_of n) limit_node = true
is_node (literal_of n) literal = true
is_node _ _ = false

abbrev pub walk : Node → List Node
walk (query n) = query n ∷ id ∷ orders ∷ []
walk node = node ∷ []

abbrev pub name : Node → String
name orders = "orders"
name id = "id"
name _ = ""

abbrev pub key : Node → String
key dropped = "DROP"
key _ = "SELECT"

abbrev pub limit_arg : Node → Option Node
limit_arg (query (some n)) = some (limit_of n)
limit_arg _ = none

abbrev pub expression : Node → Node
expression (limit_of n) = literal_of n
expression node = node

abbrev pub int_name : Node → Option ℤ
int_name (literal_of n) = some (pos n)
int_name _ = none

abbrev pub limit : Node → ℕ → Node
limit (query old) n = query (some n)
limit node n = node

abbrev pub marks : ℕ → String
marks zero = ""
marks (suc n) = Prim.Native.String.◌∷◌ "L" (marks n)

abbrev pub count_marks : String → ℕ
count_marks Prim.Native.String.[] = 0
count_marks (Prim.Native.String.◌∷◌ c s) = suc (count_marks s)

pub count_marks-marks : (n : ℕ) → count_marks (marks n) ≡ n
count_marks-marks zero = refl
count_marks-marks (suc n) = ap suc (count_marks-marks n)

abbrev pub sql : Node → String
sql (query (some n)) = marks n
sql _ = "SELECT id FROM orders"

abbrev pub parse_one : String → Option Node
parse_one text =
    if text == "SELECT id FROM orders"
    then some (query none)
    else if text == "DROP TABLE orders"
    then some dropped
    else if text == "SELECT id FROM orders LIMIT 1"
    then some (query (some 1))
    else none

abbrev pub parse : String → Parsed Node
parse text =
    if text == "SELECT id FROM orders"
    then statements (some (query none) ∷ [])
    else if text == "DROP TABLE orders"
    then statements (some dropped ∷ [])
    else if text == "SELECT id FROM orders LIMIT 1"
    then statements (some (query (some 1)) ∷ [])
    else sqlglot_error "no viable alternative"

abbrev pub all_rows : List (List (Value ℕ))
all_rows = (number 1 ∷ []) ∷ (number 2 ∷ []) ∷ (number 3 ∷ []) ∷ []

abbrev pub answer : List Action → Action → Outcome ℕ
answer before (run text) =
    done (record { columns = "id" ∷ []; rows = take (count_marks text) all_rows })
answer before _ = done (record { columns = []; rows = [] })

abbrev pub platform : Platform
platform = record {
  casefold = λ s. s;
  upper = λ s. s;
  get_close_matches = λ s candidates. candidates;
  Float = ℕ;
  float_lt = ltb;
  truthy_float = ltb 0;
  format_float = show;
  truncate_float = λ n. n;
  Expr = Node;
  parse = parse;
  parse_one = parse_one;
  is_expression = λ node. true;
  is_node = is_node;
  walk = walk;
  find_all = λ node c. keep (λ n. is_node n c) (walk node);
  has_into = λ node. false;
  key = key;
  name = name;
  alias = λ node. "";
  alias_or_name = name;
  qualifier = λ node. "";
  this = λ node. node;
  expressions = λ node. [];
  limit_arg = limit_arg;
  expression = expression;
  is_int = λ node. true;
  int_name = int_name;
  limit = limit;
  sql = sql;
  answer = answer;
  elapsed = λ sent. length sent;
  audit_accepts = λ n. true;
}

-- The same with a planner that estimates a cost of 12.
abbrev pub plan_rows : List (List (Value ℕ))
plan_rows =
    (list (cons (dict (field "Plan" (dict (field "Total Cost" (number 12) end)) end)) nil) ∷ [])
    ∷ []

abbrev pub planner : Platform
planner = record platform {
  answer = λ before action. done (record { columns = []; rows = plan_rows });
}

abbrev pub settings : ExecutionSettings ℕ
settings = record {
  max_rows_default = 100;
  max_rows_ceiling = 1000;
  statement_timeout_ms = 5000;
  statement_timeout_ceiling_ms = 30000;
  max_estimated_cost = 50;
}

abbrev pub catalog : SchemaCatalog
catalog = record { columns_by_table = ("orders", "id" ∷ []) ∷ [] }

abbrev pub validator : SqlValidator platform
validator = record { catalog = catalog; execution = settings }

abbrev pub executor : SqlExecutor platform
executor = record {
  validator = validator;
  settings = settings;
  audit = some (some "text_to_sql_reader");
}

abbrev pub caller : Caller
caller = record {
  question = some "which orders are there?";
  request_id = some "r-1";
  trace_id = none;
  session_id = none;
  validation_attempts = 1;
}

abbrev pub world : World
world = record { sent = []; trail = record { written = []; logged = [] } }

abbrev pub two_rows : Limits
two_rows = record { max_rows = some (pos 2); timeout_ms = some (pos 60000) }

abbrev pub text : String
text = "SELECT id FROM orders"
