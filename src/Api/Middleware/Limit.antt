-- ===== src/Api/Middleware/Limit.antt =====
-- api/middleware.py: what the limit on a body keeps from the application, and what it leaves alone.
use mathlib.Core.List.{[], ◌∷◌, ◌++◌}
use mcp_text_to_sql_agent.Prelude.{
  ℕ, ◌+◌, ◌≤◌, ◌<◌, String, Bool, true, false, List, ltb, length, ◌≡◌, ◌⊎◌, inl, inr, refl, sym,
  ◌∙◌, ap, arith, Bool-cases, eq_iff, if◌then◌else◌, subst,
}
use mcp_text_to_sql_agent.Api.Middleware.{
  IntParser, Scope, Incoming, request, disconnect, Outgoing, response_start, response_body, App,
  receive, send, set_request_id, with_request_id, finish, Event, delivered, sent, refused, Counter,
  count_message, counted_message, guarded, run_guarded, run_bare, exceeds, declared_length, call,
  next_message, later_messages, request_id_from,
}

-- The bytes of the bodies that a list of events or of messages carries.
abbrev pub body_size : Incoming → ℕ
body_size disconnect = 0
body_size (request body more) = length body

abbrev pub bytes_delivered : List Event → ℕ
bytes_delivered [] = 0
bytes_delivered (delivered m ∷ events) = body_size m + bytes_delivered events
bytes_delivered (sent m ∷ events) = bytes_delivered events
bytes_delivered (refused id ∷ events) = bytes_delivered events

abbrev pub bytes_of : List Incoming → ℕ
bytes_of [] = 0
bytes_of (m ∷ messages) = body_size m + bytes_of messages

bytes_delivered-guarded :
    (id : String) (b : Bool) (m : Outgoing) (events : List Event)
    → bytes_delivered (guarded id b m ++ events) ≡ bytes_delivered events
unfolding guarded
bytes_delivered-guarded id false m events = refl
bytes_delivered-guarded id true (response_start status) events = refl
bytes_delivered-guarded id true (response_body body) events = refl

-- What is delivered fits in what is left, and nothing is delivered once the limit is passed.
Fits : ℕ → ℕ → ℕ → Type 0
Fits limit received n = ((limit < received) × (n ≡ 0)) ⊎ (received + n ≤ limit)

Fits-start : (limit received n : ℕ) → received ≤ limit → Fits limit received n → n ≤ limit
unfolding Fits
Fits-start limit received n h fits = ground (arith, fits)

Fits-zero : (limit received : ℕ) → Fits limit received 0
unfolding Fits
Fits-zero limit received = elim (Bool-cases (ltb limit received)) [
  | inl e ↦ inl (ground (arith, e), refl)
  | inr e ↦ inr (ground (arith, e))
]

Fits-message :
    (limit : ℕ) (c : Counter) (m : Incoming) (n : ℕ)
    → Fits limit (count_message limit c m).received n
    → Fits limit c.received (body_size (counted_message limit c m) + n)
unfolding Fits count_message counted_message
Fits-message limit c disconnect n h = ground (arith, h)
Fits-message limit c (request body more) n h =
    elim (Bool-cases (ltb limit (c.received + length body))) [
      | inl e ↦ rw e (ground (arith, h, e))
      | inr e ↦ rw e (ground (arith, h, e))
    ]

guarded-false :
    (id : String) (m : Outgoing) (events : List Event)
    → guarded id false m ++ events ≡ sent m ∷ events
unfolding guarded
guarded-false id m events = refl

module _ (limit : ℕ) where
  next_kept :
      (c : Counter) (messages : List Incoming)
      → c.too_large ≡ false
      → c.received + bytes_of messages ≤ limit
      → let m = next_message messages in
        (counted_message limit c m ≡ m)
        × ((count_message limit c m).too_large ≡ false)
        × ((count_message limit c m).received + bytes_of (later_messages messages) ≤ limit)
  unfolding count_message counted_message
  next_kept c [] small fits = (refl, small, fits)
  next_kept c (disconnect ∷ rest) small fits = (refl, small, omega (arith, fits))
  next_kept c (request body more ∷ rest) small fits =
      elim (Bool-cases (ltb limit (c.received + length body))) [
        | inl e ↦ absurd (ground (arith, e, fits))
        | inr e ↦ (rw e refl, rw (small, e) refl, omega (arith, fits))
      ]

module _ (limit : ℕ) (uuid_hex : String) where
  run_guarded-Fits :
      (scope : Scope) (app : App) (c : Counter) (messages : List Incoming)
      → Fits limit c.received (bytes_delivered (run_guarded limit uuid_hex scope app c messages))
  unfolding run_guarded
  run_guarded-Fits scope finish c messages = Fits-zero limit c.received
  run_guarded-Fits scope (send m app) c messages =
      subst (Fits limit c.received)
        (sym (
          bytes_delivered-guarded (request_id_from uuid_hex scope) c.too_large m
            (run_guarded limit uuid_hex scope app c messages)))
        (run_guarded-Fits scope app c messages)
  run_guarded-Fits scope (set_request_id id app) c messages =
      run_guarded-Fits (with_request_id id scope) app c messages
  run_guarded-Fits scope (receive next) c messages =
      let m = next_message messages in
      Fits-message limit c m
        (bytes_delivered (
          run_guarded limit uuid_hex scope (next (counted_message limit c m))
            (count_message limit c m) (later_messages messages)))
        (run_guarded-Fits scope (next (counted_message limit c m)) (count_message limit c m)
          (later_messages messages))

  -- A body that fits is passed on as it is.
  run_guarded-bare :
      (scope : Scope) (app : App) (c : Counter) (messages : List Incoming)
      → c.too_large ≡ false
      → c.received + bytes_of messages ≤ limit
      → run_guarded limit uuid_hex scope app c messages ≡ run_bare app messages
  unfolding run_guarded run_bare
  run_guarded-bare scope finish c messages small fits = refl
  run_guarded-bare scope (set_request_id id app) c messages small fits =
      run_guarded-bare (with_request_id id scope) app c messages small fits
  run_guarded-bare scope (send m app) c messages small fits =
      ap
        (λ b.
          guarded (request_id_from uuid_hex scope) b m
          ++ run_guarded limit uuid_hex scope app c messages)
        small
      ∙ sent_as_it_is
      ∙ ap (λ events. sent m ∷ events) (run_guarded-bare scope app c messages small fits)
    where
      sent_as_it_is :
          guarded (request_id_from uuid_hex scope) false m
            ++ run_guarded limit uuid_hex scope app c messages
          ≡ sent m ∷ run_guarded limit uuid_hex scope app c messages
      sent_as_it_is =
          guarded-false (request_id_from uuid_hex scope) m
            (run_guarded limit uuid_hex scope app c messages)
  run_guarded-bare scope (receive next) c messages small fits =
      let (kept, same, room) = next_kept limit c messages small fits in
      rw kept (
        ap (λ events. delivered (next_message messages) ∷ events)
          (run_guarded-bare scope (next (next_message messages))
            (count_message limit c (next_message messages)) (later_messages messages) same room))

module _ (int : IntParser) (limit : ℕ) (uuid_hex : String) where
  http_call :
      (app : App) (scope : Scope) (messages : List Incoming)
      → scope.type ≡ "http"
      → call int limit uuid_hex app scope messages ≡ (
          if exceeds (declared_length int scope.headers) limit
          then refused (request_id_from uuid_hex scope) ∷ []
          else run_guarded limit uuid_hex scope app
              (record { received = 0; too_large = false })
              messages)
  unfolding call
  http_call app scope messages h = rw ((eq_iff scope.type "http").1 h) refl

  -- Whatever the client declares and however it splits the body, the application of an HTTP request
  -- is given no more bytes of it than the limit.
  pub call-bytes_delivered :
      (app : App) (scope : Scope) (messages : List Incoming)
      → scope.type ≡ "http"
      → bytes_delivered (call int limit uuid_hex app scope messages) ≤ limit
  call-bytes_delivered app scope messages h =
      rw (http_call app scope messages h)
        (elim (Bool-cases (exceeds (declared_length int scope.headers) limit)) [
          | inl e ↦ rw e (omega arith)
          | inr e ↦ rw e (
              Fits-start limit 0 _ (omega arith) (
                run_guarded-Fits limit uuid_hex scope app
                  (record { received = 0; too_large = false }) messages))
        ])

  -- An HTTP request that does not declare more than the limit, and whose messages carry no more, is
  -- served as without the middleware.
  pub call-transparent :
      (app : App) (scope : Scope) (messages : List Incoming)
      → scope.type ≡ "http"
      → exceeds (declared_length int scope.headers) limit ≡ false
      → bytes_of messages ≤ limit
      → call int limit uuid_hex app scope messages ≡ run_bare app messages
  call-transparent app scope messages h declared fits =
      http_call app scope messages h
      ∙ rw declared (
          run_guarded-bare limit uuid_hex scope app (record { received = 0; too_large = false })
            messages refl (omega (arith, fits)))
