-- ===== src/Tests/Mcp.antt =====
-- mcp_servers/common.py with one tool.
use mcp_text_to_sql_agent.Prelude.{
  Option, String, ◌==◌, ◌≡◌, refl, true, none, some, [], ◌∷◌, if◌then◌else◌,
}
use mcp_text_to_sql_agent.Exceptions.{unknown_table}
use mcp_text_to_sql_agent.Mcp.Tools.{
  passes, Payload, failed, handled, ToolSpec, Handled, returned, domain, find_tool, call_tool,
}
use mcp_text_to_sql_agent.Mcp.Tools.Dispatch.{IsCalled, call_tool-is_error}

-- A tool that knows one table.
abbrev handler : String → Handled String
handler table =
    if table == "orders"
    then returned (some true) "{columns: [id]}"
    else domain (unknown_table table (some "orders") "no such table")

abbrev profile_table : ToolSpec String String
profile_table = record { name = "profile_table"; check = λ table. passes; handler = handler }

profile_table-found : find_tool (profile_table ∷ []) "profile_table" ≡ some profile_table
unfolding find_tool
profile_table-found = refl

-- The JSON of a payload, if it is not one of a cyclic object.
abbrev dumps : Payload String → Option String
dumps (failed type message identifier suggestion) = some message
dumps (handled ok json) = if json == "cyclic" then none else some json

call_tool-is_error_example :
    IsCalled dumps profile_table "ordres"
      (call_tool dumps (profile_table ∷ []) "profile_table" "ordres")
call_tool-is_error_example =
    call_tool-is_error dumps (λ type message identifier suggestion. (message, refl))
      (profile_table ∷ []) "profile_table" "ordres" profile_table profile_table-found
