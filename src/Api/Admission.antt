-- ===== src/Api/Admission.antt =====
-- api/query.py: `_Admission`, the cap on the questions in flight, and the requests that share it.
-- `acquire` and `release` are synchronous, so the event loop interleaves them whole: a run of the
-- server is a sequence of arrivals and ends, in any order.
pub mod Cap
use mcp_text_to_sql_agent.Prelude.{
  ℕ, zero, suc, String, ◌≡◌, true, false, ℤ, pos, negsuc, le_ℤ, List, ◌∷◌, ◌++◌, show, ◌⧺◌,
}
use mcp_text_to_sql_agent.Api.Errors.{rate_limited}
use mcp_text_to_sql_agent.Api.Handlers.{Failure, api_error}

pub record Admission : Type 0 where
  pub limit : ℕ
  pub held : ℤ

-- `n + 1` and `n - 1` on Python's integers.
abbrev pub succ_ℤ : ℤ → ℤ
succ_ℤ (pos n) = pos (suc n)
succ_ℤ (negsuc zero) = pos zero
succ_ℤ (negsuc (suc n)) = negsuc n

abbrev pub pred_ℤ : ℤ → ℤ
pred_ℤ (pos zero) = negsuc zero
pred_ℤ (pos (suc n)) = pos n
pred_ℤ (negsuc n) = negsuc (suc n)

-- `_Admission.__init__`
abbrev pub new_admission : ℕ → Admission
new_admission limit = record { limit = limit; held = pos 0 }

-- `acquire`: the slot, or the `ApiError` it raises.
pub data Acquired : Type 0 where
  admitted : Admission → Acquired
  refused : Failure → Acquired

unfoldable pub too_many : Admission → Failure
too_many a = api_error rate_limited ("too many questions in flight; the limit is " ⧺ show a.limit)

unfoldable pub acquire : Admission → Acquired
unfolding too_many
acquire a = elim (le_ℤ (pos a.limit) a.held) [
  | true ↦ refused (too_many a)
  | false ↦ admitted (record a { held = succ_ℤ a.held })
]

unfoldable pub release : Admission → Admission
release a = record a { held = pred_ℤ a.held }

-- The counter, the requests that have passed `acquire` and not yet ended, and how many streams
-- ended without their `finally`.
pub record Server : Type 0 where
  pub admission : Admission
  pub in_flight : List String
  pub dropped : ℕ

-- One step of the event loop. An end is that of any request in flight whose `finally` runs, in which
-- `release` stands: it was answered, it failed, or its client went away. A stream that is closed
-- before its generator was asked for a first item never runs the body of the generator, so neither
-- its `finally`.
pub data Step : Server → Server → Type 0 where
  arrives :
      (a a' : Admission) (r : String) (rs : List String) (n : ℕ)
      → acquire a ≡ admitted a'
      → Step
          (record { admission = a; in_flight = rs; dropped = n })
          (record { admission = a'; in_flight = r ∷ rs; dropped = n })
  turned_away :
      (a : Admission) (e : Failure) (rs : List String) (n : ℕ)
      → acquire a ≡ refused e
      → Step
          (record { admission = a; in_flight = rs; dropped = n })
          (record { admission = a; in_flight = rs; dropped = n })
  ends :
      (a : Admission) (r : String) (before after : List String) (n : ℕ)
      → Step
          (record { admission = a; in_flight = before ++ r ∷ after; dropped = n })
          (record { admission = release a; in_flight = before ++ after; dropped = n })
  drops :
      (a : Admission) (r : String) (before after : List String) (n : ℕ)
      → Step
          (record { admission = a; in_flight = before ++ r ∷ after; dropped = n })
          (record { admission = a; in_flight = before ++ after; dropped = suc n })

pub data Run : Server → Server → Type 0 where
  start : (s : Server) → Run s s
  step : (s t u : Server) → Run s t → Step t u → Run s u
