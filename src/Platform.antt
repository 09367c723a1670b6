-- ===== src/Platform.antt =====
-- What the program calls and does not implement: the parser sqlglot, the driver psycopg, the JSON
-- values that PostgreSQL returns, floating-point numbers, Unicode case folding, and `difflib`.
-- Every definition that uses one takes a `Platform`, and a theorem holds for each of them.
use mcp_text_to_sql_agent.Prelude.{ℕ, ℤ, String, Bool, Option, List}

-- The classes of sqlglot nodes that the source names.
pub data NodeClass : Type 0 where
  select union_node intersect except : NodeClass
  insert update delete merge create drop_node alter truncate_table grant copy command : NodeClass
  lock cte subquery alias_node table_node column literal limit_node : NodeClass

-- A Python value in a row that the driver returns.
mutual
  pub data Value (Float : Type 0) : Type 0 where
    null : Value Float
    boolean : Bool → Value Float
    number : Float → Value Float
    text : String → Value Float
    list : Values Float → Value Float
    dict : Fields Float → Value Float

  pub data Values (Float : Type 0) : Type 0 where
    nil : Values Float
    cons : Value Float → Values Float → Values Float

  pub data Fields (Float : Type 0) : Type 0 where
    end : Fields Float
    field : String → Value Float → Fields Float → Fields Float

-- What the program sends over one connection, in order.
pub data Action : Type 0 where
  begin : Action
  set_timeout : ℕ → Action
  run : String → Action
  commit : Action

-- `getattr(exc, "sqlstate", None)` and `diag.message_primary` of a `psycopg.Error`.
pub record DriverError : Type 0 where
  pub sqlstate : Option String
  pub message_primary : Option String

pub record Fetched (Float : Type 0) : Type 0 where
  pub columns : List String
  pub rows : List (List (Value Float))

pub data Outcome (Float : Type 0) : Type 0 where
  done : Fetched Float → Outcome Float
  failed : DriverError → Outcome Float

-- `sqlglot.parse` gives its statements, some of them None, or raises with a text.
pub data Parsed (Expr : Type 0) : Type 0 where
  statements : List (Option Expr) → Parsed Expr
  sqlglot_error : String → Parsed Expr

pub record Platform : Type 1 where
  -- str.casefold, str.upper
  pub casefold : String → String
  pub upper : String → String
  -- difflib.get_close_matches(name, candidates, n=1, cutoff=0.6)
  pub get_close_matches : String → List String → List String
  pub Float : Type 0
  pub float_lt : Float → Float → Bool
  pub truthy_float : Float → Bool
  -- f"{x:,.0f}", int(x)
  pub format_float : Float → String
  pub truncate_float : Float → ℕ
  -- sqlglot
  pub Expr : Type 0
  pub parse : String → Parsed Expr
  pub parse_one : String → Option Expr
  pub is_expression : Expr → Bool
  pub is_node : Expr → NodeClass → Bool
  pub walk : Expr → List Expr
  pub find_all : Expr → NodeClass → List Expr
  pub has_into : Expr → Bool
  pub key : Expr → String
  pub name : Expr → String
  pub alias : Expr → String
  pub alias_or_name : Expr → String
  -- `column.table`
  pub qualifier : Expr → String
  pub this : Expr → Expr
  pub expressions : Expr → List Expr
  -- `args.get("limit")`, the node's `expression`, `Literal.is_int`, `int(name)` or its ValueError
  pub limit_arg : Expr → Option Expr
  pub expression : Expr → Expr
  pub is_int : Expr → Bool
  pub int_name : Expr → Option ℤ
  -- `statement.limit(n)`, `statement.sql(dialect=...)`
  pub limit : Expr → ℕ → Expr
  pub sql : Expr → String
  -- The answer of the database to an action, after those sent before it.
  pub answer : List Action → Action → Outcome Float
  -- The milliseconds that the clock shows between the first action of a query and the last.
  pub elapsed : List Action → Float
  -- Whether `conn.execute(_AUDIT_SQL, payload)` succeeds, by the number of rows written before.
  pub audit_accepts : ℕ → Bool
