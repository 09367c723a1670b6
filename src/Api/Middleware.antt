-- ===== src/Api/Middleware.antt =====
-- api/middleware.py: the correlation id of a request, and the limit on the size of its body. The
-- application behind the middleware is any program that receives messages and sends some.
pub mod Ids
pub mod Limit
use Prim.Native.Char.{Char, code}
use Prim.Native.String.{[], ◌∷◌}
use mathlib.Core.List.{[] as []ᴸ, ◌∷◌ as ◌∷ᴸ◌}
use mcp_text_to_sql_agent.Prelude.{
  ℕ, ◌+◌, String, Bool, true, false, not, ◌&&◌, ◌||◌, Option, none, some, List, ℤ, pos, negsuc, leb,
  ltb, nat_eq, if◌then◌else◌, ◌⧺◌, ◌==◌, count, length,
}

abbrev pub max_request_id_chars : ℕ
max_request_id_chars = 128

-- A character of the set `[A-Za-z0-9._:-]`.
unfoldable pub is_id_char : ℕ → Bool
is_id_char c =
    (leb 65 c && leb c 90)
    || (leb 97 c && leb c 122)
    || (leb 48 c && leb c 57)
    || nat_eq c 46
    || nat_eq c 95
    || nat_eq c 58
    || nat_eq c 45

unfoldable pub all_id_chars : String → Bool
unfolding is_id_char
all_id_chars [] = true
all_id_chars (c ∷ s) = is_id_char (code c) && all_id_chars s

-- `_SAFE_REQUEST_ID.match(supplied)`
unfoldable pub is_safe_id : String → Bool
unfolding all_id_chars
is_safe_id s = leb 1 (count s) && leb (count s) max_request_id_chars && all_id_chars s

-- `assign_request_id`, with the digits of the fresh `uuid4`.
unfoldable pub assign_request_id : String → Option String → String
unfolding is_safe_id
assign_request_id uuid_hex none = "req_" ⧺ uuid_hex
assign_request_id uuid_hex (some supplied) =
    if is_safe_id supplied then supplied else "req_" ⧺ uuid_hex

-- The scope of a request, whose state the application shares: its type, its headers, and the id that its state has.
pub record Scope : Type 0 where
  pub type : String
  pub headers : List (String × String)
  pub state_request_id : Option String

-- `int(value)`, none for a `ValueError`.
abbrev pub IntParser : Type 0
IntParser = String → Option ℤ

-- `_declared_length`: that of the first header of this name.
unfoldable pub declared_length : IntParser → List (String × String) → Option ℤ
declared_length int []ᴸ = none
declared_length int ((key, value) ∷ᴸ headers) =
    let rest = declared_length int headers in if key == "content-length" then int value else rest

-- The value of the first header that carries an id.
unfoldable pub header_id : List (String × String) → Option String
header_id []ᴸ = none
header_id ((key, value) ∷ᴸ headers) =
    let rest = header_id headers in if key == "x-request-id" then some value else rest

-- `_request_id_from`
unfoldable pub request_id_or : String → List (String × String) → Option String → String
unfolding assign_request_id header_id
request_id_or uuid_hex headers (some existing) = existing
request_id_or uuid_hex headers none = assign_request_id uuid_hex (header_id headers)

unfoldable pub request_id_from : String → Scope → String
unfolding request_id_or
request_id_from uuid_hex scope = request_id_or uuid_hex scope.headers scope.state_request_id

-- What the server passes to the application.
pub data Incoming : Type 0 where
  request : (body : List ℕ) → (more_body : Bool) → Incoming
  disconnect : Incoming

-- What the application sends.
pub data Outgoing : Type 0 where
  response_start : ℕ → Outgoing
  response_body : List ℕ → Outgoing

pub data App : Type 0 where
  receive : (Incoming → App) → App
  send : Outgoing → App → App
  set_request_id : String → App → App
  finish : App

-- What happens at the two sides of the middleware: a message reaches the application, one reaches
-- the client, or the 413 does, with this id.
pub data Event : Type 0 where
  delivered : Incoming → Event
  sent : Outgoing → Event
  refused : String → Event

-- The next message of the server; after the last there is the disconnect.
abbrev pub next_message : List Incoming → Incoming
next_message []ᴸ = disconnect
next_message (m ∷ᴸ rest) = m

abbrev pub later_messages : List Incoming → List Incoming
later_messages []ᴸ = []ᴸ
later_messages (m ∷ᴸ rest) = rest

-- The state that `counted` and `guarded` share.
pub record Counter : Type 0 where
  pub received : ℕ
  pub too_large : Bool

-- What `counted` does with a message that it received.
unfoldable pub count_message : ℕ → Counter → Incoming → Counter
count_message max_bytes c disconnect = c
count_message max_bytes c (request body more) =
    let received = c.received + length body in
    record { received = received; too_large = c.too_large || ltb max_bytes received }

unfoldable pub counted_message : ℕ → Counter → Incoming → Incoming
counted_message max_bytes c disconnect = disconnect
counted_message max_bytes c (request body more) =
    if ltb max_bytes (c.received + length body) then request []ᴸ false else request body more

-- What `guarded` does with a message of the application.
unfoldable pub guarded : String → Bool → Outgoing → List Event
guarded request_id false m = sent m ∷ᴸ []ᴸ
guarded request_id true (response_start status) = refused request_id ∷ᴸ []ᴸ
guarded request_id true (response_body body) = []ᴸ

-- `scope["state"]["request_id"] = id`, as the application does it.
abbrev pub with_request_id : String → Scope → Scope
with_request_id id scope = record scope { state_request_id = some id }

-- `await self._app(scope, counted, guarded)`
unfoldable pub run_guarded : ℕ → String → Scope → App → Counter → List Incoming → List Event
unfolding count_message counted_message guarded request_id_from
run_guarded max_bytes uuid_hex scope finish c messages = []ᴸ
run_guarded max_bytes uuid_hex scope (set_request_id id app) c messages =
    run_guarded max_bytes uuid_hex (with_request_id id scope) app c messages
run_guarded max_bytes uuid_hex scope (send m app) c messages =
    mathlib.Core.List.◌++◌ (guarded (request_id_from uuid_hex scope) c.too_large m)
      (run_guarded max_bytes uuid_hex scope app c messages)
run_guarded max_bytes uuid_hex scope (receive next) c messages =
    let m = next_message messages in
    let given = counted_message max_bytes c m in
    delivered given
    ∷ᴸ run_guarded max_bytes uuid_hex scope (next given) (count_message max_bytes c m)
        (later_messages messages)

-- `await self._app(scope, receive, send)`
unfoldable pub run_bare : App → List Incoming → List Event
run_bare finish messages = []ᴸ
run_bare (set_request_id id app) messages = run_bare app messages
run_bare (send m app) messages = sent m ∷ᴸ run_bare app messages
run_bare (receive next) messages =
    let m = next_message messages in delivered m ∷ᴸ run_bare (next m) (later_messages messages)

-- `declared is not None and declared > self._max_bytes`
unfoldable pub exceeds : Option ℤ → ℕ → Bool
exceeds none max_bytes = false
exceeds (some (pos n)) max_bytes = ltb max_bytes n
exceeds (some (negsuc n)) max_bytes = false

-- `BodySizeLimitMiddleware.__call__`
unfoldable pub call : IntParser → ℕ → String → App → Scope → List Incoming → List Event
unfolding exceeds declared_length run_guarded run_bare request_id_from
call int max_bytes uuid_hex app scope messages =
    if not (scope.type == "http")
    then run_bare app messages
    else if exceeds (declared_length int scope.headers) max_bytes
    then refused (request_id_from uuid_hex scope) ∷ᴸ []ᴸ
    else run_guarded max_bytes uuid_hex scope app (record { received = 0; too_large = false })
        messages

-- `RequestIdMiddleware.dispatch`: the id that the state and the response get.
unfoldable pub dispatch_id : String → Option String → String
unfolding assign_request_id
dispatch_id uuid_hex header = assign_request_id uuid_hex header
