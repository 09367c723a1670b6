-- ===== src/Schema/Serialization/Bounds.antt =====
-- schema/serialization.py: a serialized element is short, and tells no value of a sensitive column.
use Prim.Native.Char.{code}
use Prim.Native.String.{[], ◌∷◌}
use text.Mathlib.TextLemmas.{length-cons, length-nil, length-append}
use mcp_text_to_sql_agent.Prelude.{
  ◌≤◌, String, count, true, false, List, ◌≡◌, ◌⊎◌, inl, inr, refl, ap, arith, leb, leb→le, ◌==◌,
  ◌&&◌, Bool-cases, is_space, rstrip, prefix, prefix-short,
}
use mcp_text_to_sql_agent.Platform.{Platform}
use mcp_text_to_sql_agent.Profiling.Sensitivity.{is_sensitive}
use mcp_text_to_sql_agent.Schema.{Column, Table}
use mcp_text_to_sql_agent.Schema.Serialization.{
  truncate, column_text, table_text, serialize_column, serialize_table,
}

rstrip-short : (s : String) → count (rstrip s) ≤ count s
unfolding rstrip
rstrip-short [] = omega (arith)
rstrip-short (c ∷ s) = elim (Bool-cases ((rstrip s == "") && is_space (code c))) [
  | inl e ↦ rw e (omega (arith, length-nil))
  | inr e ↦ rw e (omega (arith, rstrip-short s, length-cons c s, length-cons c (rstrip s)))
]

truncate-short : (text : String) → count (truncate text) ≤ 512
unfolding truncate
truncate-short text = elim (Bool-cases (leb (count text) 512)) [
  | inl e ↦ rw e (leb→le (count text) 512 e)
  | inr e ↦ rw e (
      omega (
        arith,
        rstrip-short (prefix 509 text),
        prefix-short 509 text,
        length-append (rstrip (prefix 509 text)) "...",
      ))
]

pub serialize_table-short : (table : Table) → count (serialize_table table) ≤ 512
unfolding serialize_table
serialize_table-short table = truncate-short (table_text table)

-- The column with other sample values.
abbrev pub with_samples : List String → Column → Column
with_samples samples c = record {
  table = c.table;
  name = c.name;
  data_type = c.data_type;
  is_nullable = c.is_nullable;
  comment = c.comment;
  sample_values = samples;
}

column_text-IsPrivate :
    (P : Platform) (column : Column) (patterns samples : List String)
    → is_sensitive P column.name patterns ≡ true
    → column_text P column patterns ≡ column_text P (with_samples samples column) patterns
unfolding column_text
column_text-IsPrivate P column patterns samples e = rw e refl

-- The text that is embedded for a column has at most 512 characters, and if the column's name is
-- sensitive, the text is the same whatever sample values were collected.
pub serialize_column-IsPrivate :
    (P : Platform) (column : Column) (patterns samples : List String)
    → (count (serialize_column P column patterns) ≤ 512)
      × ((is_sensitive P column.name patterns ≡ false)
          ⊎ (serialize_column P column patterns
              ≡ serialize_column P (with_samples samples column) patterns))
unfolding serialize_column
serialize_column-IsPrivate P column patterns samples = (
  truncate-short (column_text P column patterns),
  elim (Bool-cases (is_sensitive P column.name patterns)) [
    | inl e ↦ inr (ap truncate (column_text-IsPrivate P column patterns samples e))
    | inr e ↦ inl e
  ],
)
