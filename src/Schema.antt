-- ===== src/Schema.antt =====
-- schema/models.py: what introspection finds and serialization reads.
pub mod Serialization
use mcp_text_to_sql_agent.Prelude.{◌+◌, length, ◌∷◌, [], ℕ, String, Bool, Option, List, ◌⧺◌}

pub record Column : Type 0 where
  pub table : String
  pub name : String
  pub data_type : String
  pub is_nullable : Bool
  pub comment : Option String
  pub sample_values : List String

unfoldable pub qualified_name : Column → String
qualified_name c = c.table ⧺ "." ⧺ c.name

pub record Table : Type 0 where
  pub name : String
  pub comment : Option String
  pub columns : List Column

pub record ForeignKey : Type 0 where
  pub from_table : String
  pub from_column : String
  pub to_table : String
  pub to_column : String
  pub constraint_name : Option String

pub record SchemaSnapshot : Type 0 where
  pub tables : List Table
  pub foreign_keys : List ForeignKey

unfoldable pub columns_of : List Table → ℕ
columns_of [] = 0
columns_of (table ∷ tables) = length table.columns + columns_of tables

unfoldable pub column_count : SchemaSnapshot → ℕ
unfolding columns_of
column_count snapshot = columns_of snapshot.tables
