-- ===== src/Api/Query/Drain.antt =====
-- api/query.py: `_stream`, which drains the queue that `_produce` fills.
use mcp_text_to_sql_agent.Prelude.{
  ℕ, suc, String, ◌≡◌, refl, sym, ◌∙◌, ap, Bool, true, false, ◌||◌, Option, none, some, List, [],
  ◌∷◌, ◌++◌, map, take, ◌⊎◌, inl, inr, subst,
}
use mcp_text_to_sql_agent.Platform.{Platform}
use mcp_text_to_sql_agent.Answering.{QuestionAnswerer}
use mcp_text_to_sql_agent.Execution.Executor.{SqlExecutor, World}
use mcp_text_to_sql_agent.Api.Query.{QueryRequest, answer_question, terminal_event, produce}
use mcp_text_to_sql_agent.Api.Query.Stream.{produce-IsStream}

-- How one round of the loop begins: the queue had an item in time, or nothing came until the
-- keepalive passed, and the client is still there or is not. A client whose closing the server
-- notices at a `yield` ends the rounds.
pub data Round : Type 0 where
  ready : Round
  quiet : (disconnected : Bool) → Round

-- What the generator yields.
pub data Frame (Event : Type 0) : Type 0 where
  heartbeat : Frame Event
  event : Event → Frame Event

-- The frames, and whether the generator returned.
pub record Drained (Event : Type 0) : Type 0 where
  pub frames : List (Frame Event)
  pub returned : Bool

-- Whether some round found the client gone.
abbrev pub is_gone : List Round → Bool
is_gone [] = false
is_gone (ready ∷ rounds) = is_gone rounds
is_gone (quiet disconnected ∷ rounds) = disconnected || is_gone rounds

module _ {Event : Type 0} where
  abbrev pub yielding : Frame Event → Drained Event → Drained Event
  yielding frame d = record { frames = frame ∷ d.frames; returned = d.returned }

  -- The `while` loop of `_stream`, over the rounds that the event loop gives it. No round is ready
  -- while the queue is empty: such a round stands for none.
  unfoldable pub drain : List Round → List (Option Event) → Drained Event
  drain [] queue = record { frames = []; returned = false }
  drain (quiet true ∷ rounds) queue = record { frames = []; returned = true }
  drain (quiet false ∷ rounds) queue = yielding heartbeat (drain rounds queue)
  drain (ready ∷ rounds) [] = drain rounds []
  drain (ready ∷ rounds) (none ∷ queue) = record { frames = []; returned = true }
  drain (ready ∷ rounds) (some e ∷ queue) = yielding (event e) (drain rounds queue)

  -- The events among the frames.
  abbrev pub events_of : List (Frame Event) → List Event
  events_of [] = []
  events_of (heartbeat ∷ frames) = events_of frames
  events_of (event e ∷ frames) = e ∷ events_of frames

  -- A prefix of the events is delivered, in order, and all of them once the generator has returned,
  -- unless the client was found gone.
  abbrev pub IsDelivered : List Round → List Event → Drained Event → Type 0
  IsDelivered rounds es d =
      ((n : ℕ) × (events_of d.frames ≡ take n es))
      × ((d.returned ≡ false) ⊎ ((is_gone rounds ≡ true) ⊎ (events_of d.frames ≡ es)))

  IsDelivered-cons :
      (rounds : List Round) (e : Event) (es : List Event) (d : Drained Event)
      → IsDelivered rounds es d
      → IsDelivered (ready ∷ rounds) (e ∷ es) (yielding (event e) d)
  IsDelivered-cons rounds e es d ((n, same), inl running) =
      ((suc n, ap (λ xs. e ∷ xs) same), inl running)
  IsDelivered-cons rounds e es d ((n, same), inr (inl gone)) =
      ((suc n, ap (λ xs. e ∷ xs) same), inr (inl gone))
  IsDelivered-cons rounds e es d ((n, same), inr (inr all)) =
      ((suc n, ap (λ xs. e ∷ xs) same), inr (inr (ap (λ xs. e ∷ xs) all)))

  drain-IsDelivered :
      (rounds : List Round) (es : List Event)
      → IsDelivered rounds es (drain rounds (map some es ++ none ∷ []))
  unfolding drain
  drain-IsDelivered [] es = ((0, refl), inl refl)
  drain-IsDelivered (quiet true ∷ rounds) es = ((0, refl), inr (inl refl))
  drain-IsDelivered (quiet false ∷ rounds) es = drain-IsDelivered rounds es
  drain-IsDelivered (ready ∷ rounds) [] = ((0, refl), inr (inr refl))
  drain-IsDelivered (ready ∷ rounds) (e ∷ es) =
      IsDelivered-cons rounds e es (drain rounds (map some es ++ none ∷ []))
        (drain-IsDelivered rounds es)

  queue_of :
      (es : List Event) (last : Event)
      → map some es ++ some last ∷ none ∷ [] ≡ map some (es ++ last ∷ []) ++ none ∷ []
  queue_of [] last = refl
  queue_of (e ∷ es) last = ap (λ q. some e ∷ q) (queue_of es last)

module _ (P : Platform) (since : ℕ → P.Float) (answerer : QuestionAnswerer)
    (x : SqlExecutor P) where
  -- What a client of a stream sees, however the rounds of the loop fall: the events of the work in
  -- order, up to some point; and all of them, the terminal event last, once the stream has ended,
  -- unless the client was found gone. Heartbeats change nothing of it.
  pub produce-IsDelivered :
      (request : QueryRequest) (id : String) (w : World) (rounds : List Round)
      → IsDelivered rounds
          ((answer_question P since answerer x request id w).events
            ++ terminal_event P since answerer x id
                (answer_question P since answerer x request id w).reply
              ∷ [])
          (drain rounds (produce P since answerer x request id w).0)
  produce-IsDelivered request id w rounds =
      let work = answer_question P since answerer x request id w in
      let all_events = work.events ++ terminal_event P since answerer x id work.reply ∷ [] in
      subst (λ q. IsDelivered rounds all_events (drain rounds q))
        (sym ((produce-IsStream P since answerer x request id w).0 ∙ queue_of work.events _))
        (drain-IsDelivered rounds all_events)
