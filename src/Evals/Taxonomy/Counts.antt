-- ===== src/Evals/Taxonomy/Counts.antt =====
-- evals/taxonomy.py: the tally of `counts`.
use mcp_text_to_sql_agent.Prelude.{
  ℕ, suc, ◌+◌, String, ◌==◌, eq_iff, ◌≡◌, refl, sym, ◌∙◌, ap, false, Bool-cases, inl, inr, some,
  List, [], ◌∷◌, length, keep, lookup, arith, if◌then◌else◌, subst,
}
use mcp_text_to_sql_agent.Evals.Taxonomy.{
  FailureCategory, no_failure, value, bump, count_into, zeros, counts,
}

-- How many of the categories have a name.
abbrev pub occurrences : String → List FailureCategory → ℕ
occurrences name cs = length (keep (λ c. value c == name) cs)

-- The sum of a tally.
abbrev pub total : List (String × ℕ) → ℕ
total [] = 0
total ((k, n) ∷ tally) = n + total tally

lookup-bump_same :
    (key : String) (n : ℕ) (tally : List (String × ℕ))
    → lookup key tally ≡ some n
    → (lookup key (bump key tally) ≡ some (suc n)) × (total (bump key tally) ≡ suc (total tally))
unfolding bump
lookup-bump_same key n [] h = absurd (cc h)
lookup-bump_same key n ((k, m) ∷ tally) h = elim (Bool-cases (k == key)) [
  | inl e ↦
      let same : m ≡ n = cc (rw e at h) in rw (e, e) (ap (λ i. some (suc i)) same, omega arith)
  | inr e ↦
      let (found, sum) = lookup-bump_same key n tally (rw e at h) in
      rw (e, e) (found, omega (arith, sum))
]

lookup-bump_other :
    (key other : String) (tally : List (String × ℕ))
    → (key == other) ≡ false
    → lookup other (bump key tally) ≡ lookup other tally
unfolding bump
lookup-bump_other key other [] h = refl
lookup-bump_other key other ((k, m) ∷ tally) h = elim (Bool-cases (k == key)) [
  | inl e ↦
      let differs : (k == other) ≡ false =
        subst (λ s. (s == other) ≡ false) (sym ((eq_iff k key).0 e)) h in
      rw (e, differs)
  | inr e ↦ rw e (ap (λ t. if k == other then some m else t) (lookup-bump_other key other tally h))
]

-- A tally that has every category.
abbrev IsComplete : List (String × ℕ) → Type 0
IsComplete tally = (c : FailureCategory) → (n : ℕ) × (lookup (value c) tally ≡ some n)

bump-IsComplete :
    (c : FailureCategory) (tally : List (String × ℕ))
    → IsComplete tally
    → IsComplete (bump (value c) tally)
bump-IsComplete c tally h d = elim (Bool-cases (value c == value d)) [
  | inl e ↦
      let (n, found) = h c in
      (suc n, rw (← (eq_iff (value c) (value d)).0 e) (lookup-bump_same (value c) n tally found).0)
  | inr e ↦ let (n, found) = h d in (n, lookup-bump_other (value c) (value d) tally e ∙ found)
]

count_into-counted :
    (cs : List FailureCategory) (tally : List (String × ℕ)) (d : FailureCategory) (n : ℕ)
    → IsComplete tally
    → lookup (value d) tally ≡ some n
    → (lookup (value d) (count_into tally cs) ≡ some (n + occurrences (value d) cs))
      × (total (count_into tally cs) ≡ total tally + length cs)
unfolding count_into
count_into-counted [] tally d n full h = (h ∙ ap some (omega arith), omega arith)
count_into-counted (c ∷ cs) tally d n full h =
    let (m, here) = full c in
    let sum = (lookup-bump_same (value c) m tally here).1 in
    let full' = bump-IsComplete c tally full in
    elim (Bool-cases (value c == value d)) [
      | inl e ↦
          let names = (eq_iff (value c) (value d)).0 e in
          let now : lookup (value d) (bump (value c) tally) ≡ some (suc n) =
            rw names (lookup-bump_same (value d) n tally h).0 in
          let (found, all) = count_into-counted cs (bump (value c) tally) d (suc n) full' now in
          (rw e (found ∙ ap some (omega arith)), all ∙ omega (arith, sum))
      | inr e ↦
          let now = lookup-bump_other (value c) (value d) tally e ∙ h in
          let (found, all) = count_into-counted cs (bump (value c) tally) d n full' now in
          (rw e found, all ∙ omega (arith, sum))
    ]

zero_of : (c : FailureCategory) → lookup (value c) zeros ≡ some 0
unfolding zeros value
zero_of no_failure = refl
zero_of _ = refl

zeros-IsComplete : IsComplete zeros
zeros-IsComplete c = (0, zero_of c)

total-zeros : total zeros ≡ 0
unfolding zeros value
total-zeros = refl

-- Every category is reported, with the number of questions that have it, even at zero; and the
-- counts add up to the number of questions.
pub counts-counted :
    (cs : List FailureCategory) (c : FailureCategory)
    → (lookup (value c) (counts cs) ≡ some (occurrences (value c) cs))
      × (total (counts cs) ≡ length cs)
unfolding counts
counts-counted cs c =
    let (found, all) = count_into-counted cs zeros c 0 zeros-IsComplete (zero_of c) in
    (found ∙ ap some (omega arith), all ∙ omega (arith, total-zeros))
