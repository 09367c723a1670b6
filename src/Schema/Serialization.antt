-- ===== src/Schema/Serialization.antt =====
-- schema/serialization.py: the text of a column and of a table that is embedded.
pub mod Bounds
use Prim.Native.Char.{Char, code}
use Prim.Native.String
use Prim.Native.String.{[], ◌∷◌}
use mathlib.Core.List.{[] as []ᴸ, ◌∷◌ as ◌∷ᴸ◌}
use mcp_text_to_sql_agent.Prelude.{
  ℕ, zero, suc, ◌-◌, String, count, Bool, true, false, not, Option, none, some, List, length, take,
  leb, map, keep, ◌⧺◌, ◌==◌, if◌then◌else◌, is_space, rstrip, prefix, join, show,
}
use mcp_text_to_sql_agent.Platform.{Platform}
use mcp_text_to_sql_agent.Profiling.Sensitivity.{is_sensitive}
use mcp_text_to_sql_agent.Schema.{Column, Table}

abbrev pub dash : String
dash = " — "

abbrev pub max_serialized_chars : ℕ
max_serialized_chars = 512

abbrev pub max_columns_listed : ℕ
max_columns_listed = 40

abbrev pub in_front : Char → List String → List String
in_front c []ᴸ = (c ∷ "") ∷ᴸ []ᴸ
in_front c (word ∷ᴸ words) = (c ∷ word) ∷ᴸ words

-- The texts between the spaces, which may be empty.
unfoldable pub split_at_spaces : String → List String
unfolding is_space
split_at_spaces [] = "" ∷ᴸ []ᴸ
split_at_spaces (c ∷ s) =
    let rest = split_at_spaces s in if is_space (code c) then "" ∷ᴸ rest else in_front c rest

-- `text.split()`
unfoldable pub words : String → List String
unfolding split_at_spaces
words text = keep (λ word. not (word == "")) (split_at_spaces text)

-- `_flatten`
unfoldable pub flatten : String → String
unfolding words
flatten text = join " " (words text)

-- `_truncate`
unfoldable pub truncate : String → String
unfolding rstrip prefix
truncate text =
    if leb (count text) max_serialized_chars
    then text
    else rstrip (prefix (max_serialized_chars - 3) text) ⧺ "..."

-- The comment after a dash, if there is one that is not empty.
unfoldable pub comment_part : Option String → String
unfolding flatten
comment_part none = ""
comment_part (some comment) = if comment == "" then "" else dash ⧺ flatten comment

unfoldable pub examples : List String → String
unfolding flatten
examples []ᴸ = ""
examples (value ∷ᴸ values) = ". Examples: " ⧺ join ", " (map flatten (value ∷ᴸ values))

-- The parts of a column's text, joined.
unfoldable pub column_text : Platform → Column → List String → String
unfolding comment_part examples is_sensitive
column_text P column sensitive_patterns =
    (column.table ⧺ "." ⧺ column.name ⧺ " (" ⧺ column.data_type ⧺ ")")
    ⧺ comment_part column.comment
    ⧺ (if is_sensitive P column.name sensitive_patterns then "" else examples column.sample_values)

unfoldable pub serialize_column : Platform → Column → List String → String
unfolding truncate column_text
serialize_column P column sensitive_patterns = truncate (column_text P column sensitive_patterns)

-- `f", and {remainder} more" if remainder > 0 else ""`
unfoldable pub remainder_part : ℕ → String
unfolding show
remainder_part zero = ""
remainder_part (suc n) = ", and " ⧺ show (suc n) ⧺ " more"

unfoldable pub columns_part : List Column → String
unfolding remainder_part
columns_part []ᴸ = ""
columns_part (column ∷ᴸ columns) =
    let all_columns = column ∷ᴸ columns in
    let listed = map (λ (c : Column). c.name) (take max_columns_listed all_columns) in
    ". Columns: " ⧺ join ", " listed ⧺ remainder_part (length all_columns - length listed)

unfoldable pub table_text : Table → String
unfolding comment_part columns_part
table_text table =
    (table.name ⧺ " (table)") ⧺ comment_part table.comment ⧺ columns_part table.columns

unfoldable pub serialize_table : Table → String
unfolding truncate table_text
serialize_table table = truncate (table_text table)
