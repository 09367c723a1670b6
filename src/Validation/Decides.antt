-- ===== src/Validation/Decides.antt =====
-- A check of one stage: it passes (None) or gives the failure, and checks run one after another.
use mcp_text_to_sql_agent.Prelude.{
  ◌≡◌, refl, ◌⊎◌, inl, inr, Bool, true, false, Option, none, some, if◌then◌else◌,
}

-- `failure = first; if failure is not None: return failure`, and then `second`.
infixr 20 ◌then_check◌
unfoldable pub ◌then_check◌ {ℓ} : {A : Type ℓ} → Option A → Option A → Option A
some failure then_check second = some failure
none then_check second = second

-- `failure = check; if failure is not None: return failure`, and then the rest.
unfoldable pub or_result {ℓ} : {A : Type ℓ} → Option A → A → A
or_result (some failure) rest = failure
or_result none rest = rest

module _ {A : Type 0} (Bad : A → Type 0) where
  -- Every branch of a check: it passes on what it should pass, and else fails as its stage does.
  abbrev pub Decides : Type 0 → Option A → Type 0
  Decides Q r = ((r ≡ none) × Q) ⊎ ((¬ Q) × ((f : A) × (r ≡ some f) × Bad f))

  pub Decides-then :
      (Q R : Type 0) (r s : Option A) → Decides Q r → Decides R s → Decides (Q × R) (r then_check s)
  unfolding ◌then_check◌
  Decides-then Q R r s (inl (e, q)) (inl (e', q')) = rw (e, e') (inl (refl, (q, q')))
  Decides-then Q R r s (inl (e, q)) (inr (q', (f, e', bad))) =
      rw (e, e') (inr (λ h. q' h.1, (f, refl, bad)))
  Decides-then Q R r s (inr (q, (f, e, bad))) _ = rw e (inr (λ h. q h.0, (f, refl, bad)))

  pub Decides-map : (Q R : Type 0) (r : Option A) → (Q → R) → (R → Q) → Decides Q r → Decides R r
  Decides-map Q R r f g (inl (e, q)) = inl (e, f q)
  Decides-map Q R r f g (inr (q, bad)) = inr (λ h. q (g h), bad)

  -- A test that fails the check when it is true.
  pub Decides-if_fails :
      (Q : Type 0) (b : Bool) (f : A)
      → (b ≡ true → ¬ Q)
      → (b ≡ false → Q)
      → Bad f
      → Decides Q (if b then some f else none)
  Decides-if_fails Q true f no_q q bad = inr (no_q refl, (f, refl, bad))
  Decides-if_fails Q false f no_q q bad = inl (refl, q refl)

  -- A test that passes the check when it is true.
  pub Decides-if_passes :
      (Q : Type 0) (b : Bool) (f : A)
      → (b ≡ true → Q)
      → (b ≡ false → ¬ Q)
      → Bad f
      → Decides Q (if b then none else some f)
  Decides-if_passes Q true f q no_q bad = inl (refl, q refl)
  Decides-if_passes Q false f q no_q bad = inr (no_q refl, (f, refl, bad))

  -- Two branches that decide the same.
  pub Decides-if :
      (Q : Type 0) (b : Bool) (r s : Option A)
      → (b ≡ true → Decides Q r)
      → (b ≡ false → Decides Q s)
      → Decides Q (if b then r else s)
  Decides-if Q true r s yes_case no_case = yes_case refl
  Decides-if Q false r s yes_case no_case = no_case refl
