-- ===== src/Profiling/Profiler/Naming.antt =====
-- profiling/profiler.py: the columns that a profile selects are columns of the catalog.
use mcp_text_to_sql_agent.Prelude.{
  suc, String, not, Option, none, some, List, [], ◌∷◌, All, In, In→All, length, ◌≡◌, ◌↔◌, inl, inr,
  refl, ap, arith, subst, Bool-cases, Option-cases, contains, contains_iff, first, map, take, ◌≤◌,
  All-take, length-take,
}
use mcp_text_to_sql_agent.Platform.{Platform}
use mcp_text_to_sql_agent.Profiling.Statements.{
  Returned, and_then, fetched, Result, returned, raised, Raised,
}
use mcp_text_to_sql_agent.Profiling.Profiler.Column.{Profiler}
use mcp_text_to_sql_agent.Profiling.Profiler.{
  read_column_types, select_named, selection, column_names, names_after, typed, Selection,
  select_known, Sent, and_then, fetched,
}

pub returned-injective : {A : Type 0} (a b : A) → returned a ≡ returned b → a ≡ b
returned-injective {A} a b h = ap value h
  where
    value : Result A → A
    value (returned x) = x
    value (raised e) = a

pub returned≢raised : {A : Type 0} (a : A) (e : Raised) → ¬ (raised e ≡ returned a)
returned≢raised a e h = absurd (ground arith)

module _ (P : Platform) (self : Profiler P) where
  open P use {casefold}
  open self use {conn, settings, schema}

  typed-named :
      (Q : String → Type 0) (types : List (String × String)) (names : List String)
      → All Q names
      → All (λ c. Q c.0) (typed P self types names)
  unfolding typed
  typed-named Q types [] h = tt
  typed-named Q types (name ∷ names) h = (h.0, typed-named Q types names h.1)

  length-typed :
      (types : List (String × String)) (names : List String)
      → length (typed P self types names) ≡ length names
  unfolding typed
  length-typed types [] = refl
  length-typed types (name ∷ names) = ap suc (length-typed types names)

  folded_known :
      (known requested : List String)
      → first (λ c. not (contains (casefold c) known)) requested ≡ none
      → All (λ c. In c known) (map casefold requested)
  folded_known known [] h = tt
  folded_known known (c ∷ cs) h = elim (Bool-cases (contains (casefold c) known)) [
    | inl e ↦ ((contains_iff (casefold c) known).0 e, folded_known known cs (rw e at h))
    | inr e ↦ absurd (grind (arith, e))
  ]

  module _ (same_members : (xs : List String) (a : String) → In a (self.sorted xs) ↔ In a xs) where
    pub column_names-known :
        (table : String) (requested : Option (List String)) (known names : List String)
        → column_names P self table requested known ≡ returned names
        → All (λ c. In c known) names
    unfolding column_names names_after
    column_names-known table none known names h =
        subst (All (λ c. In c known)) (returned-injective (self.sorted known) names h)
          (In→All (λ c. In c known) (self.sorted known) λ a i. (same_members known a).0 i)
    column_names-known table (some requested) known names h =
        elim (Option-cases (first (λ c. not (contains (casefold c) known)) requested)) [
          | inl e ↦
              subst (All (λ c. In c known))
                (returned-injective (map casefold requested) names (rw (e, names_after) at h))
                (folded_known known requested e)
          | inr (c, e) ↦ absurd (returned≢raised names _ (rw (e, names_after) at h))
        ]

  -- The columns of a selection are all of the list, and no more than the cap.
  abbrev pub IsSelectionOf : List String → Selection → Type 0
  IsSelectionOf known chosen =
      All (λ c. In c.0 known) chosen.selected
      × (length chosen.selected ≤ settings.profile_max_columns)

  selection-IsSelectionOf :
      (known names : List String) (types : List (String × String))
      → All (λ c. In c known) names
      → IsSelectionOf known (selection P self names types)
  unfolding selection
  selection-IsSelectionOf known names types h =
      let cap = settings.profile_max_columns in
      (
        typed-named (λ c. In c known) types (take cap names)
            (All-take (λ c. In c known) cap names h),
        omega (arith, length-typed types (take cap names), length-take cap names),
      )

  select_named-IsSelectionOf :
      (table : String) (known names : List String) (s : Sent)
      → All (λ c. In c known) names
      → Returned (IsSelectionOf known) (select_named P self table (returned names) s).result
  unfolding select_named read_column_types and_then fetched
  select_named-IsSelectionOf table known names s h =
      elim (Option-cases (conn.fetch_types s schema table)) [
        | inl e ↦ rw e tt
        | inr (types, e) ↦ rw e (selection-IsSelectionOf known names types h)
      ]

  pub select_known-IsSelectionOf :
      ((xs : List String) (a : String) → In a (self.sorted xs) ↔ In a xs)
      → (table : String) (requested : Option (List String)) (known : List String) (s : Sent)
      → Returned (IsSelectionOf known) (select_known P self table requested (some known) s).result
  unfolding select_known select_named
  select_known-IsSelectionOf same table requested known s =
      named (column_names P self table requested known) refl
    where
      named :
          (r : Result (List String))
          → column_names P self table requested known ≡ r
          → Returned (IsSelectionOf known) (select_named P self table r s).result
      named (returned names) e =
          select_named-IsSelectionOf table known names s
            (column_names-known same table requested known names e)
      named (raised x) e = tt
