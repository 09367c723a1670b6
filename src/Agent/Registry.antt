-- ===== src/Agent/Registry.antt =====
-- agent/discovery.py: `ToolRegistry`. How a server starts, what it lists and what it answers, and
-- the decoding of JSON, are parameters; closing is the exit stack's.
pub mod Degradation
use mcp_text_to_sql_agent.Prelude.{
  String, Bool, true, false, Option, none, some, List, [], ◌∷◌, lookup, assign_key, contains,
  if◌then◌else◌, ◌⧺◌, ◌==◌, map, join,
}

abbrev pub default_servers : List String
default_servers =
    "mcp_servers.schema_search" ∷ "mcp_servers.validate_sql" ∷ "mcp_servers.execute_sql"
    ∷ "mcp_servers.profile_table" ∷ []

-- A tool as `tools/list` gives it; the schema is that of its arguments.
pub record Listed (Schema : Type 0) : Type 0 where
  pub name : String
  pub description : Option String
  pub input_schema : Schema

pub record DiscoveredTool (Schema : Type 0) : Type 0 where
  pub name : String
  pub description : String
  pub input_schema : Schema
  pub server : String

-- What happens when a server is started: an exception of this class before there is a session, one
-- when its tools are listed, or its tools.
pub data Launched (Schema : Type 0) : Type 0 where
  not_started : String → Launched Schema
  not_listed : String → Launched Schema
  listed : List (Listed Schema) → Launched Schema

-- `_sessions` by the modules that have one, `_tools` and `_unavailable`.
pub record Registry (Schema : Type 0) : Type 0 where
  pub sessions : List String
  pub tools : List (String × DiscoveredTool Schema)
  pub unavailable : List (String × String)

abbrev pub or_empty : Option String → String
or_empty none = ""
or_empty (some s) = s

module _ {Schema : Type 0} where
  abbrev pub new_registry : Registry Schema
  new_registry = record { sessions = []; tools = []; unavailable = [] }

  abbrev pub discovered : String → Listed Schema → DiscoveredTool Schema
  discovered module_name tool = record {
    name = tool.name;
    description = or_empty tool.description;
    input_schema = tool.input_schema;
    server = module_name;
  }

  -- The loop over the listed tools; a later one of the same name replaces an earlier one.
  unfoldable pub add_tools :
      String
      → List (Listed Schema)
      → List (String × DiscoveredTool Schema)
      → List (String × DiscoveredTool Schema)
  add_tools module_name [] tools = tools
  add_tools module_name (tool ∷ rest) tools =
      add_tools module_name rest (assign_key tool.name (discovered module_name tool) tools)

  -- `_connect_one`, with the handler around it in `connect`.
  unfoldable pub connect_one : String → Launched Schema → Registry Schema → Registry Schema
  unfolding add_tools
  connect_one module_name (not_started exception) r = record r {
    unavailable = assign_key module_name exception r.unavailable;
  }
  connect_one module_name (not_listed exception) r = record {
    sessions = module_name ∷ r.sessions;
    tools = r.tools;
    unavailable = assign_key module_name exception r.unavailable;
  }
  connect_one module_name (listed tools) r = record {
    sessions = module_name ∷ r.sessions;
    tools = add_tools module_name tools r.tools;
    unavailable = r.unavailable;
  }

  unfoldable pub connect :
      (String → Launched Schema) → List String → Registry Schema → Registry Schema
  unfolding connect_one
  connect launch [] r = r
  connect launch (module_name ∷ modules) r =
      connect launch modules (connect_one module_name (launch module_name) r)

  -- `self._sessions[tool.server]`, and then the call; none is a `KeyError`.
  unfoldable pub call_on :
      {A : Type 0} → (String → A) → Registry Schema → Option (DiscoveredTool Schema) → Option A
  call_on ask r none = none
  call_on ask r (some tool) =
      if contains tool.server r.sessions then some (ask tool.server) else none

  -- `call`, where `ask` is the answer of a server to the call of this tool.
  unfoldable pub call : {A : Type 0} → (String → A) → Registry Schema → String → Option A
  unfolding call_on
  call ask r name = call_on ask r (lookup name r.tools)

-- What `json.loads` makes of a text.
pub data Decoded (Dict Json : Type 0) : Type 0 where
  object : Dict → Decoded Dict Json
  other : Json → Decoded Dict Json
  invalid : Decoded Dict Json

-- The payload: a dictionary as it came, `{"value": ...}`, `{"message": ...}`, or an empty one.
pub data Payload (Dict Json : Type 0) : Type 0 where
  given : Dict → Payload Dict Json
  value : Json → Payload Dict Json
  message : String → Payload Dict Json
  empty : Payload Dict Json

-- `CallToolResult`: the texts of its text blocks, in order, and its structured content if that is a
-- dictionary.
pub record CallToolResult (Dict : Type 0) : Type 0 where
  pub texts : List String
  pub structured_content : Option Dict
  pub is_error : Bool

pub record ToolResult (Dict Json : Type 0) : Type 0 where
  pub is_error : Bool
  pub payload : Payload Dict Json
  pub text : String

module _ {Dict Json : Type 0} where
  unfoldable pub decoded_payload : String → Decoded Dict Json → Payload Dict Json
  decoded_payload text (object d) = given d
  decoded_payload text (other j) = value j
  decoded_payload text invalid = message text

  unfoldable pub payload_of :
      (String → Decoded Dict Json) → Option Dict → String → Payload Dict Json
  unfolding decoded_payload
  payload_of loads (some d) text = given d
  payload_of loads none text = if text == "" then empty else decoded_payload text (loads text)

  -- `_to_result`
  unfoldable pub to_result :
      (String → Decoded Dict Json) → CallToolResult Dict → ToolResult Dict Json
  unfolding payload_of
  to_result loads result =
      let text = join "" result.texts in
      record {
        is_error = result.is_error;
        payload = payload_of loads result.structured_content text;
        text = text;
      }
