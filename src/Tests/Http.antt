-- ===== src/Tests/Http.antt =====
-- api/sse.py and api/middleware.py at concrete frames, ids and bodies.
use mcp_text_to_sql_agent.Prelude.{
  String, true, false, Option, none, some, pos, List, [], ◌∷◌, ◌≡◌, ◌⊎◌, ◌≤◌, refl, arith, ◌⧺◌,
}
use mcp_text_to_sql_agent.Api.Sse.{encode}
use mcp_text_to_sql_agent.Api.Sse.Frames.{lines, all_lines, encode-lines}
use mcp_text_to_sql_agent.Api.Middleware.{
  Scope, App, receive, send, set_request_id, finish, request, response_start, call, run_bare,
  exceeds, declared_length, assign_request_id, all_id_chars, IntParser, Incoming,
}
use mcp_text_to_sql_agent.Api.Middleware.Ids.{IsSafeId, IsUnsafe, assign_request_id-IsSafeId}
use mcp_text_to_sql_agent.Api.Middleware.Limit.{
  bytes_delivered, call-bytes_delivered, call-transparent,
}

done-frame : encode "done" "{}" ≡ some "event: done\ndata: {}\n\n"
unfolding encode
done-frame = refl

encode-lines_example :
    all_lines (lines ("event: done\ndata: {}\n\n" ⧺ ""))
    ≡ "event: done" ∷ "data: {}" ∷ "" ∷ all_lines (lines "")
encode-lines_example = encode-lines "done" "{}" "event: done\ndata: {}\n\n" "" done-frame

abbrev hex : String
hex = "0123456789abcdef0123456789abcdef"

hex-digits : all_id_chars hex ≡ true
unfolding all_id_chars
hex-digits = refl

assign_request_id-IsSafeId_example :
    IsSafeId (assign_request_id hex (some "a b"))
    × (◌≡◌ {A = Option String} (some "a b") (some (assign_request_id hex (some "a b")))
        ⊎ ((assign_request_id hex (some "a b") ≡ "req_" ⧺ hex) × IsUnsafe (some "a b")))
assign_request_id-IsSafeId_example = assign_request_id-IsSafeId hex hex-digits refl (some "a b")

-- An application that sets the id of the request, reads one message and answers.
abbrev app : App
app = set_request_id "r-1" (receive (λ m. send (response_start 200) finish))

abbrev scope : Scope
scope = record { type = "http"; headers = ("content-length", "2") ∷ []; state_request_id = none }

abbrev two : IntParser
two text = some (pos 2)

abbrev bodies : List Incoming
bodies = request (104 ∷ 105 ∷ []) false ∷ []

call-bytes_delivered_example : bytes_delivered (call two 1 hex app scope bodies) ≤ 1
call-bytes_delivered_example = call-bytes_delivered two 1 hex app scope bodies refl

small : exceeds (declared_length two scope.headers) 4 ≡ false
unfolding exceeds declared_length
small = refl

call-transparent_example : call two 4 hex app scope bodies ≡ run_bare app bodies
call-transparent_example = call-transparent two 4 hex app scope bodies refl small (omega arith)
