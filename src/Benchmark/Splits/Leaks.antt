-- ===== src/Benchmark/Splits/Leaks.antt =====
-- benchmark/splits.py: what `leaked_databases` finds, and what `apply` stamps.
use mcp_text_to_sql_agent.Prelude.{
  differs-sym, String, ◌==◌, eq_iff, eq_refl, ◌≡◌, refl, sym, ◌∙◌, ap, Bool, true, false, ◌&&◌,
  Bool-cases, inl, inr, none, some, List, [], ◌∷◌, contains, assign_key, has_key, if◌then◌else◌,
  All, all, map,
}
use mcp_text_to_sql_agent.Benchmark.Splits.{
  Split, SplitPolicy, Library, Question, sorted_set, assign_each, assign, is_trained_on,
  leaked_databases, stamp, cons_some, apply,
}
use mcp_text_to_sql_agent.Benchmark.Splits.Membership.{split_of, assign-lookup}

has_key-here :
    (db : String) (split : Split) (assignment : List (String × Split))
    → has_key db ((db, split) ∷ assignment) ≡ true
has_key-here db split assignment = rw (eq_refl db)

leaked_here :
    (c : Bool) (db : String) (leaked : List String) (split : Split)
    (assignment : List (String × Split)) (later : Bool)
    → contains db leaked ≡ later && c
    → contains db (if c then db ∷ leaked else leaked) ≡ has_key db ((db, split) ∷ assignment) && c
leaked_here true db leaked split assignment later h =
    rw (has_key-here db split assignment, eq_refl db)
leaked_here false db leaked split assignment true h = rw (has_key-here db split assignment) h
leaked_here false db leaked split assignment false h = rw (has_key-here db split assignment) h

leaked_elsewhere :
    (c : Bool) (k db : String) (leaked : List String)
    → (db == k) ≡ false
    → contains db (if c then k ∷ leaked else leaked) ≡ contains db leaked
leaked_elsewhere true k db leaked h = rw h
leaked_elsewhere false k db leaked h = refl

cons_if :
    {A : Type 0} (b : Bool) (x : A) (xs : List A)
    → cons_some (some x) (if b then some xs else none) ≡ (if b then some (x ∷ xs) else none)
cons_if true x xs = refl
cons_if false x xs = refl

module _ (L : Library) (rules : SplitPolicy L.Float) (reserved : List String) where
  abbrev IsAssigned : List (String × Split) → Type 0
  IsAssigned = All (λ (e : String × Split). e.1 ≡ split_of L rules reserved e.0)

  assign_key-IsAssigned :
      (db : String) (assignment : List (String × Split))
      → IsAssigned assignment
      → IsAssigned (assign_key db (split_of L rules reserved db) assignment)
  assign_key-IsAssigned db [] h = (refl, tt)
  assign_key-IsAssigned db ((k, s) ∷ assignment) (here, rest) = elim (Bool-cases (k == db)) [
    | inl e ↦ rw e (ap (λ n. split_of L rules reserved n) (sym ((eq_iff k db).0 e)), rest)
    | inr e ↦ rw e (here, assign_key-IsAssigned db assignment rest)
  ]

  assign_each-IsAssigned :
      (db_ids : List String) (assignment : List (String × Split))
      → IsAssigned assignment
      → IsAssigned (assign_each L rules reserved db_ids assignment)
  unfolding assign_each
  assign_each-IsAssigned [] assignment h = h
  assign_each-IsAssigned (db ∷ db_ids) assignment h =
      assign_each-IsAssigned db_ids _ (assign_key-IsAssigned db assignment h)

  leaked-contains :
      (assignment : List (String × Split)) (evaluated : List String) (db : String)
      → IsAssigned assignment
      → contains db (leaked_databases assignment evaluated) ≡ (
          has_key db assignment
          && (contains db evaluated && is_trained_on (split_of L rules reserved db)))
  unfolding leaked_databases
  leaked-contains [] evaluated db h = refl
  leaked-contains ((k, s) ∷ assignment) evaluated db (here, rest) =
      let later = leaked-contains assignment evaluated db rest in
      elim (Bool-cases (k == db)) [
        | inl e ↦
            rw (here, (eq_iff k db).0 e)
              (leaked_here (contains db evaluated && is_trained_on (split_of L rules reserved db))
                db (leaked_databases assignment evaluated) _ assignment _ later)
        | inr e ↦ rw e (
            leaked_elsewhere (contains k evaluated && is_trained_on s) k db
              (leaked_databases assignment evaluated) (differs-sym k db e)
            ∙ later)
      ]

  assign-IsAssigned : (db_ids : List String) → IsAssigned (assign L rules db_ids reserved)
  unfolding assign
  assign-IsAssigned db_ids = assign_each-IsAssigned (sorted_set L db_ids) [] tt

  -- A database is reported as leaked exactly if it was given a split, is evaluated, is not reserved,
  -- and its hash lies in a band that is trained on or iterated against.
  pub leaked_databases_iff :
      (db_ids evaluated : List String) (db : String)
      → contains db (leaked_databases (assign L rules db_ids reserved) evaluated) ≡ (
          contains db db_ids
          && (contains db evaluated && is_trained_on (split_of L rules reserved db)))
  leaked_databases_iff db_ids evaluated db =
      leaked-contains (assign L rules db_ids reserved) evaluated db (assign-IsAssigned db_ids)
      ∙ elim (Bool-cases (contains db db_ids)) [
        | inl e ↦ rw (assign-lookup L rules db_ids reserved db, e)
        | inr e ↦ rw (assign-lookup L rules db_ids reserved db, e)
      ]

  -- The question with the split of its database.
  pub with_split : Question → Question
  with_split q = record q { split = split_of L rules reserved q.db_id }

  -- `apply` with the assignment of some databases: every question gets the split of its own
  -- database and keeps the rest, in order; and it is refused if one names a database that is not
  -- among them.
  pub apply-assign :
      (db_ids : List String) (questions : List Question)
      → apply questions (assign L rules db_ids reserved) ≡ (
          if all (λ (q : Question). contains q.db_id db_ids) questions
          then some (map with_split questions)
          else none)
  unfolding apply stamp with_split
  apply-assign db_ids [] = refl
  apply-assign db_ids (q ∷ questions) = elim (Bool-cases (contains q.db_id db_ids)) [
    | inl e ↦
        rw (assign-lookup L rules db_ids reserved q.db_id, e, apply-assign db_ids questions)
          (cons_if _ (with_split q) (map with_split questions))
    | inr e ↦ rw (assign-lookup L rules db_ids reserved q.db_id, e)
  ]
