-- ===== src/Llm/Fallback/Active.antt =====
-- adapters/llm/fallback.py: the active client of a chain.
use mcp_text_to_sql_agent.Prelude.{
  ℕ, zero, suc, ◌+◌, ◌≤◌, ◌<◌, ◌≡◌, refl, inl, inr, List, [], ◌∷◌, length, drop, arith,
}
use mcp_text_to_sql_agent.Llm.Fallback.{Completion, State, complete}
use mcp_text_to_sql_agent.Llm.Fallback.Attempts.{complete-IsTried}

module _ {A : Type 0} where
  length-drop : (n : ℕ) (xs : List A) → n ≤ length xs → n + length (drop n xs) ≡ length xs
  length-drop zero xs h = omega arith
  length-drop (suc n) [] h = omega arith
  length-drop (suc n) (x ∷ xs) h = omega (arith, length-drop n xs)

-- The active client is one of the chain's.
abbrev pub IsActive : State → Type 0
IsActive s = s.chain.active < length s.chain.clients

module _ {Request Response : Type 0} (reply : List ℕ → ℕ → Request → Completion Response) where
  -- A request of a chain whose active client is one of its clients keeps the clients and leaves the
  -- active one in range and no earlier than before.
  pub complete-IsActive :
      (request : Request) (s : State)
      → IsActive s
      → ((complete reply request s).1.chain.clients ≡ s.chain.clients)
        × (s.chain.active ≤ (complete reply request s).1.chain.active)
        × IsActive (complete reply request s).1
  complete-IsActive request s active =
      let whole = length-drop s.chain.active s.chain.clients (omega (arith, active)) in
      let (n, _, outcome) = complete-IsTried reply request s in
      elim outcome [
        | inl (all, (exhausted, same)) ↦ rw same (refl, omega arith, active)
        | inr (less, inl (response, given, same)) ↦
            rw same (refl, omega arith, omega (arith, whole, less))
        | inr (less, inr (exc, given, other, same)) ↦ rw same (refl, omega arith, active)
      ]
