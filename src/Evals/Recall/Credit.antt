-- ===== src/Evals/Recall/Credit.antt =====
-- evals/recall.py: what counts as found, and how recall grows with the window.
use mcp_text_to_sql_agent.Prelude.{
  ℕ, zero, suc, ◌≤◌, String, Bool, true, false, ◌||◌, Option, none, some, List, [], ◌∷◌, length,
  take, keep, any, Any, any_iff, ◌==◌, eq_iff, ◌≡◌, ◌↔◌, inl, inr, refl, sym, ◌∙◌, arith,
  Bool-cases, and_left, false≢true,
}
use mcp_text_to_sql_agent.Platform.{Platform}
use mcp_text_to_sql_agent.Evals.Recall.{
  GoldElements, Target, targets, is_pair, in_seen_columns, in_seen_tables, is_found, found_at,
}

or-true : (a b : Bool) → (a ≡ true → b ≡ true) → a || b ≡ b
or-true true b h = sym (h refl)
or-true false b h = refl

or_right : (a b : Bool) → b ≡ true → a || b ≡ true
or_right true b h = refl
or_right false b h = h

any-weaken :
    {A : Type 0} (p q : A → Bool)
    → ((a : A) → p a ≡ true → q a ≡ true)
    → (xs : List A) → any p xs ≡ true
    → any q xs ≡ true
any-weaken p q h [] e = e
any-weaken p q h (x ∷ xs) e = elim (Bool-cases (p x)) [
  | inl f ↦ rw (h x f) refl
  | inr f ↦ or_right (q x) (any q xs) (any-weaken p q h xs (rw f at e))
]

any-take :
    {A : Type 0} (p : A → Bool) (k l : ℕ) (xs : List A)
    → k ≤ l
    → any p (take k xs) ≡ true
    → any p (take l xs) ≡ true
any-take p zero l xs h e = absurd (false≢true e)
any-take p (suc k) zero xs h e = absurd (omega arith)
any-take p (suc k) (suc l) [] h e = e
any-take p (suc k) (suc l) (x ∷ xs) h e = elim (Bool-cases (p x)) [
  | inl f ↦ rw f refl
  | inr f ↦ rw f (any-take p k l xs (omega arith) (rw f at e))
]

length-keep_mono :
    {A : Type 0} (p q : A → Bool)
    → ((a : A) → p a ≡ true → q a ≡ true)
    → (xs : List A) → (length (keep p xs) ≤ length (keep q xs)) × (length (keep q xs) ≤ length xs)
length-keep_mono p q h [] = (omega arith, omega arith)
length-keep_mono p q h (x ∷ xs) =
    let (less, all) = length-keep_mono p q h xs in
    elim (Bool-cases (p x)) [
      | inl e ↦ rw (e, h x e) (omega (arith, less), omega (arith, all))
      | inr e ↦ elim (Bool-cases (q x)) [
        | inl f ↦ rw (e, f) (omega (arith, less), omega (arith, all))
        | inr f ↦ rw (e, f) (less, omega (arith, all))
      ]
    ]

module _ (P : Platform) where
  open P use {casefold}

  is_pair-table :
      (table column : String) (e : Target)
      → is_pair P table column e ≡ true
      → (casefold e.0 == table) ≡ true
  is_pair-table table column (t, none) h = absurd (false≢true h)
  is_pair-table table column (t, some c) h = and_left (casefold t == table) (casefold c == column) h

  in_seen_columns-table :
      (window : List Target) (table column : String)
      → in_seen_columns P window table column ≡ true
      → in_seen_tables P window table ≡ true
  unfolding in_seen_columns in_seen_tables
  in_seen_columns-table window table column =
      any-weaken (is_pair P table column) (λ e. casefold e.0 == table) (is_pair-table table column)
        window

  is_found-table :
      (window : List Target) (table : String) (column : Option String)
      → is_found P window (table, column) ≡ in_seen_tables P window table
  unfolding is_found
  is_found-table window table none = refl
  is_found-table window table (some column) =
      or-true (in_seen_columns P window table column) (in_seen_tables P window table)
        (in_seen_columns-table window table column)

  -- A table or a column of a table counts as found exactly if an element of that table was
  -- retrieved, be it the table, the column or another column.
  pub is_found_iff :
      (window : List Target) (table : String) (column : Option String)
      → (is_found P window (table, column) ≡ true) ↔ Any (λ e. casefold e.0 ≡ table) window
  unfolding in_seen_tables
  is_found_iff window table column =
      let named =
        any_iff (λ (e : Target). casefold e.0 == table) (λ e. casefold e.0 ≡ table)
          (λ e. eq_iff (casefold e.0) table) window in
      (
        λ h. named.0 (sym (is_found-table window table column) ∙ h),
        λ h. is_found-table window table column ∙ named.1 h,
      )

  is_found-take :
      (retrieved : List Target) (k l : ℕ) (e : Target)
      → k ≤ l
      → is_found P (take k retrieved) e ≡ true
      → is_found P (take l retrieved) e ≡ true
  unfolding in_seen_tables
  is_found-take retrieved k l (table, column) h found =
      is_found-table (take l retrieved) table column
      ∙ any-take (λ (e : Target). casefold e.0 == table) k l retrieved h
          (sym (is_found-table (take k retrieved) table column) ∙ found)

  -- A wider window finds no fewer of the targets, and no more than there are.
  pub found_at_mono :
      (gold : GoldElements) (retrieved : List Target) (k l : ℕ)
      → k ≤ l
      → (found_at P gold retrieved k ≤ found_at P gold retrieved l)
        × (found_at P gold retrieved l ≤ length (targets gold))
  unfolding found_at
  found_at_mono gold retrieved k l h =
      length-keep_mono (is_found P (take k retrieved)) (is_found P (take l retrieved))
        (λ e. is_found-take retrieved k l e h) (targets gold)
