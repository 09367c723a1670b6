-- ===== src/Api/Sse.antt =====
-- api/sse.py: the wire form of one event. The payload is the text that `json.dumps` made of the data.
pub mod Frames
use Prim.Native.Char.{Char, code}
use Prim.Native.String.{[], ◌∷◌}
use mcp_text_to_sql_agent.Prelude.{
  ℕ, String, Bool, true, false, not, ◌&&◌, ◌||◌, Option, none, some, leb, nat_eq, if◌then◌else◌,
  ◌⧺◌, count,
}

abbrev pub heartbeat : String
heartbeat = ": keepalive\n\n"

-- `[a-z]` and `[a-z_]`
abbrev pub is_lower : ℕ → Bool
is_lower c = leb 97 c && leb c 122

abbrev pub is_name_char : ℕ → Bool
is_name_char c = is_lower c || nat_eq c 95

unfoldable pub all_name_chars : String → Bool
all_name_chars [] = true
all_name_chars (c ∷ s) = is_name_char (code c) && all_name_chars s

-- `_EVENT_NAME.match(event)`
unfoldable pub is_event_name : String → Bool
unfolding all_name_chars
is_event_name [] = false
is_event_name (c ∷ s) = is_lower (code c) && all_name_chars s && leb (count s) 30

-- `"\n" in text or "\r" in text`
unfoldable pub spans_lines : String → Bool
spans_lines [] = false
spans_lines (c ∷ s) = nat_eq (code c) 10 || nat_eq (code c) 13 || spans_lines s

-- The frame of an event with this name and this payload; none is the `ValueError` of
-- `__post_init__` or of `encode`.
unfoldable pub encode : String → String → Option String
unfolding is_event_name spans_lines
encode event payload =
    if is_event_name event && not (spans_lines payload)
    then some ("event: " ⧺ event ⧺ "\ndata: " ⧺ payload ⧺ "\n\n")
    else none
