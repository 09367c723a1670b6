-- ===== src/Llm/Fallback/Attempts.antt =====
-- adapters/llm/fallback.py: which clients a request reaches, and what it leaves.
use mcp_text_to_sql_agent.Prelude.{
  ℕ, zero, suc, ◌+◌, ◌<◌, String, ◌≡◌, refl, ap, true, false, Bool-cases, ◌⊎◌, inl, inr, List, [],
  ◌∷◌, ◌++◌, length, drop, arith, append_assoc, append-nil,
}
use mcp_text_to_sql_agent.Exceptions.{DomainError, llm_quota_exceeded_error, is_instance}
use mcp_text_to_sql_agent.Llm.Fallback.{
  LlmClient, Completion, answered, threw, FallbackLlmClient, State, all_exhausted, activate,
  try_from, complete,
}

-- `[first, first + 1, ...]`, of the given length.
abbrev pub indices : ℕ → ℕ → List ℕ
indices first zero = []
indices first (suc n) = first ∷ indices (suc first) n

module _ {Request Response : Type 0} (reply : List ℕ → ℕ → Request → Completion Response) where
  -- Each of `n` clients, asked in turn, is out of quota.
  abbrev pub Exhausted : Request → List ℕ → ℕ → ℕ → Type 0
  Exhausted request asked index zero = Unit
  Exhausted request asked index (suc n) =
      ((exc : DomainError) × (reply asked index request ≡ threw exc)
        × (is_instance exc llm_quota_exceeded_error ≡ true))
      × Exhausted request (asked ++ index ∷ []) (suc index) n

  -- What a request does: `n` clients from the active one on are out of quota. Either these are all
  -- there are, and the chain is unavailable; or the next client decides: its answer makes it the
  -- active one, and another error of it is passed on and changes nothing.
  abbrev pub IsTried :
      FallbackLlmClient → Request → List ℕ → ℕ → ℕ → Completion Response × State → Type 0
  IsTried chain request asked index left result =
      (n : ℕ) × (Exhausted request asked index n)
      × (((n ≡ left)
            × ((exhausted : List String) × (result ≡ (
              threw (all_exhausted exhausted),
              record { chain = chain; asked = asked ++ indices index n },
            ))))
          ⊎ ((n < left)
              × (((response : Response) × (reply (asked ++ indices index n) (index + n) request
                      ≡ answered response)
                    × (result ≡ (
                      answered response,
                      record {
                        chain = record { clients = chain.clients; active = index + n };
                        asked = asked ++ indices index (suc n);
                      },
                    )))
                  ⊎ ((exc : DomainError) × (reply (asked ++ indices index n) (index + n) request
                        ≡ threw exc)
                      × (is_instance exc llm_quota_exceeded_error ≡ false)
                      × (result ≡ (
                        threw exc,
                        record { chain = chain; asked = asked ++ indices index (suc n) },
                      ))))))

  activate-active :
      (index : ℕ) (chain : FallbackLlmClient)
      → activate reply index chain ≡ record { clients = chain.clients; active = index }
  activate-active index chain = ground arith

  -- One client out of quota before what the later ones do.
  IsTried-cons :
      (chain : FallbackLlmClient) (request : Request) (asked : List ℕ) (index left : ℕ)
      (exc : DomainError) (result : Completion Response × State)
      → reply asked index request ≡ threw exc
      → is_instance exc llm_quota_exceeded_error ≡ true
      → IsTried chain request (asked ++ index ∷ []) (suc index) left result
      → IsTried chain request asked index (suc left) result
  IsTried-cons chain request asked index left exc result e quota (n, spent, rest) =
      let shift : (m : ℕ)
          → (asked ++ index ∷ []) ++ indices (suc index) m ≡ asked ++ indices index (suc m) =
        λ m. append_assoc asked (index ∷ []) (indices (suc index) m) in
      let next : suc index + n ≡ index + suc n = omega arith in
      (
        suc n,
        ((exc, e, quota), spent),
        elim rest [
          | inl (all, (exhausted, same)) ↦ inl (ap suc all, (exhausted, rw (← shift n) same))
          | inr (less, inl (response, given, same)) ↦ inr (
            omega arith,
            inl (response, rw (← shift n, ← next) given, rw (← shift (suc n), ← next) same),
          )
          | inr (less, inr (exc', given, other, same)) ↦ inr (
            omega arith,
            inr (exc', rw (← shift n, ← next) given, other, rw (← shift (suc n)) same),
          )
        ],
      )

  right_zero : (n : ℕ) → n + 0 ≡ n
  right_zero n = omega arith

  Completion-cases :
      (c : Completion Response)
      → ((response : Response) × (c ≡ answered response)) ⊎ ((exc : DomainError) × (c ≡ threw exc))
  Completion-cases (answered response) = inl (response, refl)
  Completion-cases (threw exc) = inr (exc, refl)

  try_from-IsTried :
      (chain : FallbackLlmClient) (exhausted : List String) (index : ℕ) (clients : List LlmClient)
      (request : Request) (asked : List ℕ)
      → IsTried chain request asked index
          (length clients)
          (try_from reply chain exhausted index clients request asked)
  unfolding try_from
  try_from-IsTried chain exhausted index [] request asked =
      (0, tt, inl (refl, (exhausted, rw append-nil)))
  try_from-IsTried chain exhausted index (c ∷ clients) request asked =
      elim (Completion-cases (reply asked index request)) [
        | inl (response, e) ↦
            rw (e, try_from)
              (
                0,
                tt,
                inr (
                  omega arith,
                  inl (
                    response,
                    rw (append-nil, right_zero) e,
                    rw (activate-active, right_zero) refl,
                  ),
                ),
              )
        | inr (exc, e) ↦ elim (Bool-cases (is_instance exc llm_quota_exceeded_error)) [
          | inl quota ↦
              rw (e, quota, try_from)
                (IsTried-cons chain request asked index (length clients) exc _ e quota (
                  try_from-IsTried chain (exhausted ++ c.model ∷ []) (suc index) clients request
                    (asked ++ index ∷ [])))
          | inr other ↦
              rw (e, other, try_from)
                (0, tt, inr (omega arith, inr (exc, rw (append-nil, right_zero) e, other, refl)))
        ]
      ]

  -- A request asks the clients in order from the active one on, each once, and moves on only if one
  -- is out of quota. The client that answers becomes the active one; any other error is passed on
  -- at once, and if every client is out of quota the chain is unavailable, the active client being
  -- kept in both cases.
  pub complete-IsTried :
      (request : Request) (s : State)
      → IsTried s.chain request s.asked s.chain.active
          (length (drop s.chain.active s.chain.clients))
          (complete reply request s)
  unfolding complete
  complete-IsTried request s =
      try_from-IsTried s.chain [] s.chain.active (drop s.chain.active s.chain.clients) request
        s.asked
