-- ===== src/Benchmark/Splits/Membership.antt =====
-- benchmark/splits.py: the split of a database depends on its own name only.
use mcp_text_to_sql_agent.Prelude.{
  differs-sym, String, ◌==◌, eq_iff, ◌≡◌, refl, ◌∙◌, ap, ◌||◌, Bool, true, false, Bool-cases, inl,
  inr, none, some, List, [], ◌∷◌, contains, lookup, assign_key, lookup-assign_key_same,
  lookup-assign_key_other, if◌then◌else◌,
}
use mcp_text_to_sql_agent.Benchmark.Splits.{
  Split, held_out, SplitPolicy, Library, insert, sorted_set, bucket, band, assign_each, assign,
}

or_idem : (a b : Bool) → a || b ≡ a || (a || b)
or_idem true b = refl
or_idem false b = refl

or_swap : (a b c : Bool) → a || (b || c) ≡ b || (a || c)
or_swap true true c = refl
or_swap true false c = refl
or_swap false b c = refl

if_same : {A : Type 0} (b : Bool) (x : A) → (if b then x else x) ≡ x
if_same true x = refl
if_same false x = refl

module _ (L : Library) where
  contains-insert :
      (name x : String) (ys : List String) → contains name (insert L x ys) ≡ contains name (x ∷ ys)
  unfolding insert
  contains-insert name x [] = refl
  contains-insert name x (y ∷ ys) = elim (Bool-cases (x == y)) [
    | inl e ↦ rw (e, (eq_iff x y).0 e) (or_idem (name == y) (contains name ys))
    | inr e ↦ elim (Bool-cases (L.text_lt x y)) [
      | inl less ↦ rw (e, less) refl
      | inr more ↦
          rw (e, more)
            (ap (λ b. (name == y) || b) (contains-insert name x ys)
              ∙ or_swap (name == y) (name == x) (contains name ys))
    ]
  ]

  contains-sorted_set :
      (name : String) (xs : List String) → contains name (sorted_set L xs) ≡ contains name xs
  unfolding sorted_set
  contains-sorted_set name [] = refl
  contains-sorted_set name (x ∷ xs) =
      contains-insert name x (sorted_set L xs)
      ∙ ap (λ b. (name == x) || b) (contains-sorted_set name xs)

  -- The split of a name: held out if it is reserved, and otherwise the band of its hash.
  abbrev pub split_of : SplitPolicy L.Float → List String → String → Split
  split_of rules reserved name =
      if contains name reserved then held_out else band L rules (bucket L name rules.seed)

  assign_each-lookup :
      (rules : SplitPolicy L.Float) (reserved db_ids : List String)
      (assignment : List (String × Split)) (name : String)
      → lookup name (assign_each L rules reserved db_ids assignment) ≡ (
          if contains name db_ids
          then some (split_of rules reserved name)
          else lookup name assignment)
  unfolding assign_each
  assign_each-lookup rules reserved [] assignment name = refl
  assign_each-lookup rules reserved (db ∷ db_ids) assignment name =
      assign_each-lookup rules reserved db_ids
        (assign_key db (split_of rules reserved db) assignment) name
      ∙ elim (Bool-cases (name == db)) [
        | inl e ↦
            rw
              (
                e,
                (eq_iff name db).0 e,
                lookup-assign_key_same db (split_of rules reserved db) assignment,
              )
              (if_same (contains db db_ids) _)
        | inr e ↦ rw (
          e,
          lookup-assign_key_other db name (split_of rules reserved db) assignment
              (differs-sym name db e),
        )
      ]

  -- The split of every database that is given depends only on its own name, never on which others
  -- are: adding databases moves none. No other database gets one.
  pub assign-lookup :
      (rules : SplitPolicy L.Float) (db_ids reserved : List String) (name : String)
      → lookup name (assign L rules db_ids reserved)
        ≡ (if contains name db_ids then some (split_of rules reserved name) else none)
  unfolding assign
  assign-lookup rules db_ids reserved name =
      rw (← contains-sorted_set name db_ids)
        (assign_each-lookup rules reserved (sorted_set L db_ids) [] name)
