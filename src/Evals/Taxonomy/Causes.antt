-- ===== src/Evals/Taxonomy/Causes.antt =====
-- evals/taxonomy.py: when `classify` says that the system was never asked, or that nothing failed.
use mcp_text_to_sql_agent.Prelude.{
  String, ◌==◌, ◌≡◌, ◌≢◌, ◌↔◌, refl, Bool, true, false, not, ◌&&◌, ◌||◌, false≢true, Bool-cases,
  inl, inr, Option, none, some, contains, lookup, lookup-checked, arith, if◌then◌else◌, and_left,
  subst, and_right, eq_iff,
}
use mcp_text_to_sql_agent.Platform.{Platform}
use mcp_text_to_sql_agent.Evals.Taxonomy.{
  FailureCategory, no_failure, infrastructure, uncategorised, value, Comparison, RecallResult,
  infrastructure_types, from_error_type, from_verdict, is_infrastructure, category_of_error, given,
  is_unanswerable, is_missed, of_comparison, of_error, classify, parse_category, Verdict, match,
  gold_error, unanswerable, retrieval_miss, or_uncategorised,
}

abbrev is_category : FailureCategory → FailureCategory → Bool
unfolding value
is_category c d = value c == value d

-- The two tables agree on the error types that mean infrastructure, and no error type means that
-- nothing failed.
abbrev is_consistent : String → FailureCategory → Bool
unfolding value
is_consistent error_type c =
    (not (is_category c infrastructure) || contains error_type infrastructure_types)
    && not (is_category c no_failure)

consistent_sound :
    (t : String) (c : FailureCategory)
    → is_consistent t c ≡ true
    → ((c ≡ infrastructure) → contains t infrastructure_types ≡ true) × (c ≢ no_failure)
unfolding value
consistent_sound t c h = (
  λ e. and_left (contains t infrastructure_types) true (subst (λ d. is_consistent t d ≡ true) e h),
  λ e. false≢true (
      and_right (not (is_category no_failure infrastructure) || contains t infrastructure_types)
        false (subst (λ d. is_consistent t d ≡ true) e h)),
)

uncategorised-consistent : (t : String) → is_consistent t uncategorised ≡ true
unfolding value
uncategorised-consistent t = refl

or_uncategorised-consistent :
    (t : String) (o : Option FailureCategory)
    → lookup t from_error_type ≡ o
    → is_consistent t (or_uncategorised o) ≡ true
unfolding value
or_uncategorised-consistent t none e = refl
or_uncategorised-consistent t (some c) e = lookup-checked is_consistent t c from_error_type refl e

-- The category that the table gives an error type.
category_of_error-consistent :
    (t : String)
    → ((category_of_error t ≡ infrastructure) → contains t infrastructure_types ≡ true)
      × (category_of_error t ≢ no_failure)
unfolding category_of_error
category_of_error-consistent t =
    consistent_sound t (or_uncategorised (lookup t from_error_type))
      (or_uncategorised-consistent t _ refl)

from_verdict-failure :
    (v : Verdict) → (from_verdict v ≢ infrastructure) × (from_verdict v ≢ no_failure)
unfolding from_verdict
from_verdict-failure match = (λ e. cc e, λ e. cc e)
from_verdict-failure _ = (λ e. cc e, λ e. cc e)

of_comparison-infrastructure : (c : Option Comparison) → of_comparison c ≢ infrastructure
unfolding of_comparison
of_comparison-infrastructure none h = cc h
of_comparison-infrastructure (some c) h = elim (Bool-cases c.matched) [
  | inl e ↦ cc (rw e at h)
  | inr e ↦ (from_verdict-failure c.verdict).0 (rw e at h)
]

of_comparison-matched :
    (c : Option Comparison)
    → of_comparison c ≡ no_failure
    → (d : Comparison) × (c ≡ some d) × (d.matched ≡ true)
unfolding of_comparison
of_comparison-matched none h = cc h
of_comparison-matched (some c) h = elim (Bool-cases c.matched) [
  | inl e ↦ (c, refl, e)
  | inr e ↦ absurd ((from_verdict-failure c.verdict).1 (rw e at h))
]

of_error-infrastructure :
    (t : Option String) (c : Option Comparison)
    → of_error (given t) c ≡ infrastructure
    → is_infrastructure t ≡ true
unfolding of_error is_infrastructure
of_error-infrastructure none c h = absurd (of_comparison-infrastructure c h)
of_error-infrastructure (some t) c h = elim (Bool-cases (t == "")) [
  | inl e ↦ absurd (of_comparison-infrastructure c (rw e at h))
  | inr e ↦ (category_of_error-consistent t).0 (rw e at h)
]

of_error-matched :
    (t : Option String) (c : Option Comparison)
    → of_error t c ≡ no_failure
    → (t ≡ none) × ((d : Comparison) × (c ≡ some d) × (d.matched ≡ true))
unfolding of_error
of_error-matched none c h = (refl, of_comparison-matched c h)
of_error-matched (some t) c h = absurd ((category_of_error-consistent t).1 h)

given-none :
    (t : Option String)
    → given t ≡ none
    → (is_infrastructure t ≡ false) × (is_unanswerable t ≡ false)
unfolding is_infrastructure
given-none none h = (refl, refl)
given-none (some t) h = elim (Bool-cases (t == "")) [
  | inl e ↦ rw ((eq_iff t "").0 e) (refl, refl)
  | inr e ↦ absurd (cc (rw e at h))
]

branches-no_failure :
    (g i u m : Bool) (c : FailureCategory)
    → (if g
        then gold_error
        else if i
        then infrastructure
        else if u
        then unanswerable
        else if m
        then retrieval_miss
        else c)
      ≡ no_failure
    → (g ≡ false) × (m ≡ false) × (c ≡ no_failure)
branches-no_failure g i u m c h = ground arith

module _ (P : Platform) (comparison : Option Comparison) (recall : Option (RecallResult P.Float))
    (error_type : Option String) (gold_failed : Bool) (floor : P.Float) where
  -- The two decisions that must agree: a question is filed as infrastructure, and so leaves the
  -- scored denominator, exactly if its error type is one for which a resumed run retries it, unless
  -- its reference answer does not run.
  pub classify-infrastructure_iff :
      (classify P comparison recall error_type gold_failed floor ≡ infrastructure)
      ↔ ((gold_failed ≡ false) × (is_infrastructure error_type ≡ true))
  unfolding classify
  classify-infrastructure_iff =
      (λ h. ground (arith, of_error-infrastructure error_type comparison), λ h. ground arith)

  -- A question counts as answered exactly if its reference answer ran, nothing it needed was
  -- missed by retrieval, no error was reported, and the two results matched.
  pub classify-no_failure_iff :
      (classify P comparison recall error_type gold_failed floor ≡ no_failure) ↔ (
        (gold_failed ≡ false)
        × (given error_type ≡ none)
        × (is_missed P recall floor ≡ false)
        × ((d : Comparison) × (comparison ≡ some d) × (d.matched ≡ true)))
  unfolding classify of_comparison
  classify-no_failure_iff = (
    λ h.
        let (gold, seen, last) =
          branches-no_failure gold_failed (is_infrastructure error_type)
            (is_unanswerable error_type) (is_missed P recall floor)
            (of_error (given error_type) comparison) h in
        let (no_error, found) = of_error-matched (given error_type) comparison last in
        (gold, no_error, seen, found),
    λ (gold, no_error, seen, (d, is_d, matched)).
        let (asked, answerable) = given-none error_type no_error in
        rw (gold, asked, answerable, seen, no_error, is_d, of_error, of_comparison, matched),
  )

-- A category written to an artifact is read back.
pub parse_category-value : (c : FailureCategory) → parse_category (value c) ≡ c
unfolding parse_category
parse_category-value no_failure = refl
parse_category-value _ = refl
