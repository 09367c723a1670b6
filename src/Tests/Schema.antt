-- ===== src/Tests/Schema.antt =====
-- schema/serialization.py: a column whose name is sensitive and whose comment has two lines.
use mcp_text_to_sql_agent.Prelude.{count, true, false, some, [], ◌∷◌, ◌≡◌, ◌⊎◌, ◌≤◌, refl}
use mcp_text_to_sql_agent.Profiling.Sensitivity.{is_sensitive, default_sensitive_patterns}
use mcp_text_to_sql_agent.Schema.{Column}
use mcp_text_to_sql_agent.Schema.Serialization.{serialize_column, serialize_table}
use mcp_text_to_sql_agent.Schema.Serialization.Bounds.{with_samples, serialize_column-IsPrivate}
use mcp_text_to_sql_agent.Tests.Sample.{platform}

abbrev email : Column
email = record {
  table = "customers";
  name = "email";
  data_type = "text";
  is_nullable = true;
  comment = some "where to\n  write";
  sample_values = "ada@example.org" ∷ [];
}

serialize_column-IsPrivate_example :
    (count (serialize_column platform email default_sensitive_patterns) ≤ 512)
    × ((is_sensitive platform email.name default_sensitive_patterns ≡ false)
        ⊎ (serialize_column platform email default_sensitive_patterns
            ≡ serialize_column platform (with_samples [] email) default_sensitive_patterns))
serialize_column-IsPrivate_example =
    serialize_column-IsPrivate platform email default_sensitive_patterns []

serialized_email :
    serialize_column platform email default_sensitive_patterns
    ≡ "customers.email (text) — where to write"
unfolding serialize_column
serialized_email = refl

serialized_open :
    serialize_column platform email []
    ≡ "customers.email (text) — where to write. Examples: ada@example.org"
unfolding serialize_column
serialized_open = refl

serialized_table :
    serialize_table (record { name = "customers"; comment = some ""; columns = email ∷ [] })
    ≡ "customers (table). Columns: email"
unfolding serialize_table
serialized_table = refl
