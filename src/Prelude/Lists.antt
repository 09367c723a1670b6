-- ===== src/Prelude/Lists.antt =====
-- Lists over the native numbers, Boolean searches, and predicates on lists by recursion.
use Prim.Native.Nat.{ℕ, zero, suc, ◌+◌, ◌≤◌, min}
use Prim.Native.String.{String}
use mathlib.Core.Path.{◌≡◌, refl, sym, ◌∙◌, subst}
use text.Mathlib.TextEquality.{eq_iff}
use mathlib.Core.Logic.{◌↔◌, ◌⊎◌, inl, inr}
use mathlib.Core.Bool.{false≢true, Bool, true, false, ◌||◌, ◌&&◌}
use mathlib.Core.Option.{Option, none, some}
use mathlib.Core.List.{List, [], ◌∷◌, ◌++◌}
use native.Mathlib.Omega.{arith}
use text.Mathlib.Text.{◌==◌}
use mcp_text_to_sql_agent.Prelude.Tests.{if◌then◌else◌, Bool-cases}

module _ {ℓ} {A : Type ℓ} where
  abbrev pub length : List A → ℕ
  length [] = 0
  length (x ∷ xs) = suc (length xs)

  abbrev pub take : ℕ → List A → List A
  take zero xs = []
  take (suc n) [] = []
  take (suc n) (x ∷ xs) = x ∷ take n xs

  abbrev pub drop : ℕ → List A → List A
  drop zero xs = xs
  drop (suc n) [] = []
  drop (suc n) (x ∷ xs) = drop n xs

  abbrev pub get_elem? : List A → ℕ → Option A
  get_elem? [] i = none
  get_elem? (x ∷ xs) zero = some x
  get_elem? (x ∷ xs) (suc i) = get_elem? xs i

  -- Python's `any` and `all` over a list.
  abbrev pub any : (A → Bool) → List A → Bool
  any p [] = false
  any p (x ∷ xs) = p x || any p xs

  abbrev pub all : (A → Bool) → List A → Bool
  all p [] = true
  all p (x ∷ xs) = p x && all p xs

  -- A comprehension with an `if`.
  abbrev pub keep : (A → Bool) → List A → List A
  keep p [] = []
  keep p (x ∷ xs) = if p x then x ∷ keep p xs else keep p xs

  -- The first element that passes, as a loop with an early return finds it.
  abbrev pub first : (A → Bool) → List A → Option A
  first p [] = none
  first p (x ∷ xs) = if p x then some x else first p xs

  -- `[s for s in xs if s is not None]`.
  abbrev pub somes : List (Option A) → List A
  somes [] = []
  somes (none ∷ xs) = somes xs
  somes (some x ∷ xs) = x ∷ somes xs

  pub length-append : (xs ys : List A) → length (xs ++ ys) ≡ length xs + length ys
  length-append [] ys = omega arith
  length-append (x ∷ xs) ys = omega (arith, length-append xs ys)

  pub length-take : (n : ℕ) (xs : List A) → length (take n xs) ≡ min n (length xs)
  length-take zero xs = omega arith
  length-take (suc n) [] = omega arith
  length-take (suc n) (x ∷ xs) = omega (arith, length-take n xs)

  pub take_all : (n : ℕ) (xs : List A) → length xs ≤ n → take n xs ≡ xs
  take_all zero [] h = refl
  take_all zero (x ∷ xs) h = absurd (omega arith)
  take_all (suc n) [] h = refl
  take_all (suc n) (x ∷ xs) h = ground (arith, take_all n xs)

module _ {ℓ κ} {A : Type ℓ} (P : A → Type κ) where
  abbrev pub All : List A → Type κ
  All [] = Unit
  All (x ∷ xs) = P x × All xs

  pub All-append : (xs ys : List A) → All xs → All ys → All (xs ++ ys)
  All-append [] ys h k = k
  All-append (x ∷ xs) ys (p, h) k = (p, All-append xs ys h k)

module _ {A : Type 0} where
  -- Some element has the property, at a known place.
  abbrev pub Any : (A → Type 0) → List A → Type 0
  Any P [] = ⊥
  Any P (x ∷ xs) = P x ⊎ Any P xs

  -- An element of a list, with its place.
  abbrev pub In : A → List A → Type 0
  In a xs = Any (λ x. x ≡ a) xs

module _ {A : Type 0} (P : A → Type 0) where
  pub All→In : (xs : List A) → All P xs → (a : A) → In a xs → P a
  All→In [] h a i = elim i [ ]
  All→In (x ∷ xs) h a (inl e) = subst P e h.0
  All→In (x ∷ xs) h a (inr i) = All→In xs h.1 a i

  pub In→All : (xs : List A) → ((a : A) → In a xs → P a) → All P xs
  In→All [] h = tt
  In→All (x ∷ xs) h = (h x (inl refl), In→All xs (λ a i. h a (inr i)))

  pub All-take : (n : ℕ) (xs : List A) → All P xs → All P (take n xs)
  All-take zero xs h = tt
  All-take (suc n) [] h = tt
  All-take (suc n) (x ∷ xs) h = (h.0, All-take n xs h.1)

-- `name in names` for texts.
abbrev pub contains : String → List String → Bool
contains s names = any (λ x. s == x) names

module _ {A : Type 0} (p : A → Bool) (P : A → Type 0) (same : (x : A) → (p x ≡ true) ↔ P x) where
  pub any→Any : (xs : List A) → any p xs ≡ true → Any P xs
  any→Any [] h = absurd (false≢true h)
  any→Any (x ∷ xs) h = elim (Bool-cases (p x)) [
    | inl e ↦ inl ((same x).0 e)
    | inr e ↦ inr (any→Any xs (rw e at h))
  ]

  pub Any→any : (xs : List A) → Any P xs → any p xs ≡ true
  Any→any [] h = elim h [ ]
  Any→any (x ∷ xs) (inl h) = rw ((same x).1 h)
  Any→any (x ∷ xs) (inr h) = elim (Bool-cases (p x)) [ inl e ↦ rw e | inr e ↦ rw e (Any→any xs h) ]

  pub any_iff : (xs : List A) → (any p xs ≡ true) ↔ Any P xs
  any_iff xs = (any→Any xs, Any→any xs)

  -- No element passes exactly when none has the property.
  pub any-eq-false_iff : (xs : List A) → (any p xs ≡ false) ↔ All (λ x. ¬ P x) xs
  any-eq-false_iff [] = (λ _. tt, λ _. refl)
  any-eq-false_iff (x ∷ xs) = elim (Bool-cases (p x)) [
    | inl e ↦ (λ h. absurd (false≢true (sym (rw e at h))), λ h. absurd (h.0 ((same x).0 e)))
    | inr e ↦ (
      λ h. (λ k. false≢true (sym e ∙ (same x).1 k), (any-eq-false_iff xs).0 (rw e at h)),
      λ h. rw e ((any-eq-false_iff xs).1 h.1),
    )
  ]

pub contains_iff : (s : String) (xs : List String) → (contains s xs ≡ true) ↔ In s xs
contains_iff s =
    any_iff (λ x. s == x) (λ x. x ≡ s)
      (λ x. (λ h. sym ((eq_iff s x).0 h), λ h. (eq_iff s x).1 (sym h)))
