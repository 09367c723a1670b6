-- ===== src/Api/Admission/Cap.antt =====
-- api/query.py: the cap holds in every run of the server, and the counter is exact.
use mcp_text_to_sql_agent.Prelude.{
  ◌+◌, ℕ, suc, ◌≤◌, ◌<◌, String, ◌≡◌, refl, sym, ◌∙◌, ap, ◌⊎◌, inl, inr, pos, List, [], ◌∷◌, ◌++◌,
  length, arith, subst,
}
use mcp_text_to_sql_agent.Api.Admission.{
  Admission, Acquired, admitted, refused, acquire, release, too_many, Server, new_admission, Step,
  drops, pred_ℤ, arrives, turned_away, ends, Run, start, step,
}

-- The slots that are taken: one for each request in flight and one for each dropped stream.
abbrev pub taken : Server → ℕ
taken s = length s.in_flight + s.dropped

-- The counter is the number of the slots that are taken, which is at most the limit.
abbrev pub IsCounted : ℕ → Server → Type 0
IsCounted limit s =
    (s.admission.limit ≡ limit) × (s.admission.held ≡ pos (taken s)) × (taken s ≤ limit)

-- With `n` slots held, `acquire` takes one if there is one left, and refuses otherwise.
pub acquire-held :
    (a : Admission) (n : ℕ)
    → a.held ≡ pos n
    → ((n < a.limit) × (acquire a ≡ admitted (record a { held = pos (suc n) })))
      ⊎ ((a.limit ≤ n) × (acquire a ≡ refused (too_many a)))
unfolding acquire
acquire-held a n h = rw h (ground arith)

-- The slot that an `Acquired` holds.
abbrev slot : Admission → Acquired → Admission
slot a (admitted b) = b
slot a (refused e) = a

admitted-injective : {a b : Admission} → admitted a ≡ admitted b → a ≡ b
admitted-injective {a} h = ap (slot a) h

length_without :
    (r : String) (before after : List String)
    → length (before ++ r ∷ after) ≡ suc (length (before ++ after))
length_without r [] after = refl
length_without r (x ∷ before) after = ap suc (length_without r before after)

suc_left : (m n : ℕ) → suc m + n ≡ suc (m + n)
suc_left m n = omega arith

pub Step-IsCounted : (limit : ℕ) (s t : Server) → Step s t → IsCounted limit s → IsCounted limit t
unfolding release
Step-IsCounted limit _ _ (arrives a a' r rs n e) (same, held, fits) =
    elim (acquire-held a (length rs + n) held) [
      | inl (less, got) ↦
          subst (λ t. IsCounted limit (record { admission = t; in_flight = r ∷ rs; dropped = n }))
            (admitted-injective (sym got ∙ e))
            (same, ap pos (omega arith), omega (arith, same, less))
      | inr (full, got) ↦ absurd (cc (e, got))
    ]
Step-IsCounted limit _ _ (turned_away a e rs n h) counted = counted
Step-IsCounted limit _ _ (ends a r before after n) (same, held, fits) = (
  same,
  ap pred_ℤ (held ∙ ap pos (ap (λ k. k + n) (length_without r before after) ∙ suc_left _ n)),
  omega (arith, length_without r before after, fits),
)
Step-IsCounted limit _ _ (drops a r before after n) (same, held, fits) = (
  same,
  held ∙ ap pos (omega (arith, length_without r before after)),
  omega (arith, length_without r before after, fits),
)

Run-IsCounted : (limit : ℕ) (s t : Server) → Run s t → IsCounted limit s → IsCounted limit t
Run-IsCounted limit _ _ (start s) h = h
Run-IsCounted limit _ _ (step s t u run next) h =
    Step-IsCounted limit t u next (Run-IsCounted limit s t run h)

abbrev pub new_server : ℕ → Server
new_server limit = record { admission = new_admission limit; in_flight = []; dropped = 0 }

-- However the requests arrive, end and are dropped: the counter is the number of requests in flight
-- and of dropped streams together, never above the limit, and the next request is admitted if that
-- number is below the limit and refused if not. So an end gives its slot back, and a stream that is
-- closed before its first item keeps it.
pub Run-cap :
    (limit : ℕ) (s : Server)
    → Run (new_server limit) s
    → IsCounted limit s
      × (((taken s < limit)
            × (acquire s.admission
                ≡ admitted (record { limit = limit; held = pos (suc (taken s)) })))
          ⊎ ((taken s ≡ limit) × (acquire s.admission ≡ refused (too_many s.admission))))
Run-cap limit s run =
    let (same, held, fits) =
      Run-IsCounted limit (new_server limit) s run (refl, refl, omega arith) in
    (
      (same, held, fits),
      elim (acquire-held s.admission (taken s) held) [
        | inl (less, got) ↦ inl (rw (← same) less, rw (← same) got)
        | inr (full, got) ↦ inr (omega (arith, fits, same, full), got)
      ],
    )
