-- ===== src/Validation/Resolution.antt =====
-- validation/validator.py, stage 4: which names resolve, and that the check decides it.
use mcp_text_to_sql_agent.Prelude.{
  String, ◌≡◌, ◌≢◌, ◌↔◌, refl, sym, ◌∙◌, Bool, true, false, ◌||◌, not, ◌⊎◌, inl, inr, false≢true,
  some, List, [], ◌∷◌, ◌++◌, All, In, contains, contains_iff, ◌==◌, eq_iff, Bool-cases,
  if◌then◌else◌,
}
use mcp_text_to_sql_agent.Platform.{Platform, column}
use mcp_text_to_sql_agent.Catalog.{SchemaCatalog, is_empty, has_table, has_column, columns_of}
use mcp_text_to_sql_agent.Validation.Decides.{
  Decides, Decides-then, Decides-map, Decides-if_passes, Decides-if,
}
use mcp_text_to_sql_agent.Validation.Result.{ValidationResult, identifiers}
use mcp_text_to_sql_agent.Validation.Names.{non_empty, local_names, resolve_alias}
use mcp_text_to_sql_agent.Validation.Identifiers.{
  check_table, check_tables, real_tables, check_qualified, check_unqualified, check_column,
  check_columns, check_reachable, check_identifiers,
}

pub non_empty_iff : (s : String) → (non_empty s ≡ true) ↔ (s ≢ "")
non_empty_iff s = elim (Bool-cases (s == "")) [
  | inl e ↦ rw e (λ h. absurd (false≢true h), λ h. absurd (h ((eq_iff s "").0 e)))
  | inr e ↦ rw e (λ _ k. false≢true (sym e ∙ (eq_iff s "").1 k), λ _. refl)
]

or_iff : (a b : Bool) → ((a || b) ≡ true) ↔ ((a ≡ true) ⊎ (b ≡ true))
or_iff true b = (λ _. inl refl, λ _. refl)
or_iff false b = (λ h. inr h, λ h. elim h [ inl e ↦ absurd (false≢true e) | inr e ↦ e ])

not_or_iff : (a b : Bool) → ((not a || b) ≡ true) ↔ ((a ≡ false) ⊎ (b ≡ true))
not_or_iff true b = (λ h. inr h, λ h. elim h [ inl e ↦ absurd (false≢true (sym e)) | inr e ↦ e ])
not_or_iff false b = (λ _. inl refl, λ _. refl)

not_non_empty : (s : String) → non_empty s ≡ false → s ≡ ""
not_non_empty s h = elim (Bool-cases (s == "")) [
  | inl e ↦ (eq_iff s "").0 e
  | inr e ↦ absurd (false≢true (sym (rw e at h)))
]

is_empty_text : (s : String) → s ≡ "" → non_empty s ≡ false
is_empty_text s h = rw ((eq_iff s "").1 h)

module _ (P : Platform) (catalog : SchemaCatalog) where
  open P use {Expr, Float, casefold, find_all, name, qualifier}

  -- A failure of stage 4 with one of its two error types.
  abbrev pub IsUnresolved : ValidationResult Float → Type 0
  IsUnresolved r =
      (r.valid ≡ false)
      × (r.stage_failed ≡ some identifiers)
      × ((r.error_type ≡ some "table_not_found") ⊎ (r.error_type ≡ some "unknown_identifier"))

  -- A table that the query defines itself, or that the catalog has.
  abbrev pub TableResolves : List String → String → Type 0
  TableResolves locals table = In (casefold table) locals ⊎ (has_table P catalog table ≡ true)

  -- A qualified column: of a local name, of a table that the catalog does not know, or a column of
  -- the table that the qualifier stands for.
  abbrev pub QualifiedResolves : Expr → List String → String → String → Type 0
  QualifiedResolves statement locals q n =
      In (casefold q) locals
      ⊎ ((has_table P catalog (resolve_alias P statement q) ≡ false)
          ⊎ (has_column P catalog (resolve_alias P statement q) n ≡ true))

  abbrev pub ColumnResolves : Expr → List String → List String → Expr → Type 0
  ColumnResolves statement locals reachable c =
      ((name c ≡ "") ⊎ (name c ≡ "*"))
      ⊎ (((qualifier c ≢ "") × QualifiedResolves statement locals (qualifier c) (name c))
          ⊎ ((qualifier c ≡ "") × In (casefold (name c)) reachable))

  -- What the columns must satisfy; with no real table in the query nothing is asked of them.
  abbrev pub ColumnsResolve : Expr → List String → List String → Type 0
  ColumnsResolve statement locals [] = Unit
  ColumnsResolve statement locals (r ∷ rs) =
      All (ColumnResolves statement locals (columns_of P catalog (r ∷ rs) ++ locals))
        (find_all statement column)

  -- The names of a statement resolve; an empty catalog asks nothing.
  abbrev pub Resolves : Expr → List String → Type 0
  Resolves statement tables =
      (is_empty catalog ≡ true)
      ⊎ (All (TableResolves (local_names P statement)) tables
          × ColumnsResolve statement (local_names P statement)
              (real_tables P catalog (local_names P statement) tables))

  check_table_lem :
      (sql : String) (locals : List String) (t : String)
      → Decides IsUnresolved (TableResolves locals t) (check_table P catalog sql locals t)
  unfolding check_table
  check_table_lem sql locals t =
      Decides-if_passes IsUnresolved _ (contains (casefold t) locals || has_table P catalog t) _
        (λ h. elim ((or_iff _ _).0 h) [
          | inl local ↦ inl ((contains_iff _ locals).0 local)
          | inr known ↦ inr known
        ])
        (λ h k. false≢true (
          sym h
          ∙ (or_iff _ _).1 (elim k [
            | inl local ↦ inl ((contains_iff _ locals).1 local)
            | inr known ↦ inr known
          ])))
        (refl, refl, inl refl)

  check_tables_lem :
      (sql : String) (locals ts : List String)
      → Decides IsUnresolved (All (TableResolves locals) ts) (check_tables P catalog sql locals ts)
  unfolding check_tables
  check_tables_lem sql locals [] = inl (refl, tt)
  check_tables_lem sql locals (t ∷ ts) =
      Decides-then IsUnresolved _ _ _ _ (check_table_lem sql locals t)
        (check_tables_lem sql locals ts)

  qualified_iff :
      (statement : Expr) (locals : List String) (q n : String)
      → contains (casefold q) locals ≡ false
      → QualifiedResolves statement locals q n
      → ((has_table P catalog (resolve_alias P statement q) ≡ false)
          ⊎ (has_column P catalog (resolve_alias P statement q) n ≡ true))
  qualified_iff statement locals q n e (inl local) =
      absurd (false≢true (sym e ∙ (contains_iff _ locals).1 local))
  qualified_iff statement locals q n e (inr rest) = rest

  check_qualified_lem :
      (sql : String) (statement : Expr) (locals : List String) (q n : String)
      → Decides IsUnresolved
          (QualifiedResolves statement locals q n)
          (check_qualified P catalog sql statement locals q n)
  unfolding check_qualified
  check_qualified_lem sql statement locals q n =
      Decides-if IsUnresolved _ (contains (casefold q) locals) _ _
        (λ h. inl (refl, inl ((contains_iff _ locals).0 h)))
        (λ e.
          Decides-if_passes IsUnresolved _
            (not (has_table P catalog (resolve_alias P statement q))
              || has_column P catalog (resolve_alias P statement q) n)
            _ (λ h. inr ((not_or_iff _ _).0 h))
            (λ h k.
              false≢true (sym h ∙ (not_or_iff _ _).1 (qualified_iff statement locals q n e k)))
            (refl, refl, inr refl))

  check_unqualified_lem :
      (sql : String) (reals reachable : List String) (n : String)
      → Decides IsUnresolved
          (In (casefold n) reachable)
          (check_unqualified P catalog sql reals reachable n)
  unfolding check_unqualified
  check_unqualified_lem sql reals reachable n =
      Decides-if_passes IsUnresolved _ (contains (casefold n) reachable) _
        (contains_iff _ reachable).0 (λ h k. false≢true (sym h ∙ (contains_iff _ reachable).1 k))
        (refl, refl, inr refl)

  module _ (sql : String) (statement : Expr) (locals reals reachable : List String) where
    -- What is left to check of a column with a name of its own.
    named_lem :
        (c : Expr)
        → (name c ≢ "") × (name c ≢ "*")
        → Decides IsUnresolved (ColumnResolves statement locals reachable c) (
            if non_empty (qualifier c)
            then check_qualified P catalog sql statement locals (qualifier c) (name c)
            else check_unqualified P catalog sql reals reachable (name c))
    named_lem c (named, no_star) =
        Decides-if IsUnresolved _ (non_empty (qualifier c)) _ _
          (λ q.
            let q' = (non_empty_iff (qualifier c)).0 q in
            Decides-map IsUnresolved _ _ _ (λ h. inr (inl (q', h)))
              (λ h. elim h [
                | inl (inl e) ↦ absurd (named e)
                | inl (inr e) ↦ absurd (no_star e)
                | inr (inl (_, r)) ↦ r
                | inr (inr (e, _)) ↦ absurd (q' e)
              ])
              (check_qualified_lem sql statement locals (qualifier c) (name c)))
          (λ q.
            let q' = not_non_empty (qualifier c) q in
            Decides-map IsUnresolved _ _ _ (λ h. inr (inr (q', h)))
              (λ h. elim h [
                | inl (inl e) ↦ absurd (named e)
                | inl (inr e) ↦ absurd (no_star e)
                | inr (inl (ne, _)) ↦ absurd (ne q')
                | inr (inr (_, r)) ↦ r
              ])
              (check_unqualified_lem sql reals reachable (name c)))

    check_column_lem :
        (c : Expr)
        → Decides IsUnresolved
            (ColumnResolves statement locals reachable c)
            (check_column P catalog sql statement locals reals reachable c)
    unfolding check_column
    check_column_lem c =
        Decides-if IsUnresolved _ (not (non_empty (name c)) || (name c == "*")) _ _
          (λ h. inl (
            refl,
            inl (elim ((not_or_iff _ _).0 h) [
              | inl e ↦ inl (not_non_empty (name c) e)
              | inr e ↦ inr ((eq_iff (name c) "*").0 e)
            ]),
          ))
          (λ h. named_lem c (
            λ e. false≢true (sym h ∙ (not_or_iff _ _).1 (inl (is_empty_text (name c) e))),
            λ e. false≢true (sym h ∙ (not_or_iff _ _).1 (inr ((eq_iff (name c) "*").1 e))),
          ))

    check_columns_lem :
        (cs : List Expr)
        → Decides IsUnresolved
            (All (ColumnResolves statement locals reachable) cs)
            (check_columns P catalog sql statement locals reals reachable cs)
    unfolding check_columns
    check_columns_lem [] = inl (refl, tt)
    check_columns_lem (c ∷ cs) =
        Decides-then IsUnresolved _ _ _ _ (check_column_lem c) (check_columns_lem cs)

  check_reachable_lem :
      (sql : String) (statement : Expr) (locals reals : List String)
      → Decides IsUnresolved
          (ColumnsResolve statement locals reals)
          (check_reachable P catalog sql statement locals reals)
  unfolding check_reachable
  check_reachable_lem sql statement locals [] = inl (refl, tt)
  check_reachable_lem sql statement locals (r ∷ rs) =
      check_columns_lem sql statement locals (r ∷ rs) (columns_of P catalog (r ∷ rs) ++ locals)
        (find_all statement column)

  -- The identifier check passes exactly the statements whose names resolve against the catalog,
  -- and it fails every other statement as stage 4 does.
  pub check_identifiers-Decides :
      (sql : String) (e : Expr) (tables : List String)
      → Decides IsUnresolved (Resolves e tables) (check_identifiers P catalog sql e tables)
  unfolding check_identifiers
  check_identifiers-Decides sql e tables =
      Decides-if IsUnresolved _ (is_empty catalog) _ _ (λ h. inl (refl, inl h))
        (λ h.
          Decides-map IsUnresolved _ _ _ (λ k. inr k)
            (λ k. elim k [ inl e ↦ absurd (false≢true (sym h ∙ e)) | inr r ↦ r ])
            (Decides-then IsUnresolved _ _ _ _ (check_tables_lem sql (local_names P e) tables)
              (check_reachable_lem sql e (local_names P e) _)))
