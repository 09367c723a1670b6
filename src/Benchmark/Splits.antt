-- ===== src/Benchmark/Splits.antt =====
-- benchmark/splits.py: which databases may be trained on, and which only reported from.
pub mod Membership
pub mod Leaks
use mcp_text_to_sql_agent.Prelude.{
  ℕ, zero, suc, ◌+◌, ◌%◌, String, ◌==◌, ◌⧺◌, Bool, true, false, ◌&&◌, ◌||◌, Option, none, some,
  List, [], ◌∷◌, contains, lookup, assign_key, if◌then◌else◌, keep, map,
}

-- evals/dataset.py: `Split`.
pub data Split : Type 0 where
  train dev smoke held_out : Split

-- evals/dataset.py: `Question`, as far as this module reads it; `rest` stands for its other fields.
pub record Question : Type 0 where
  pub question_id : String
  pub db_id : String
  pub split : Split
  pub rest : String

pub record SplitPolicy (Float : Type 0) : Type 0 where
  pub train : Float
  pub dev : Float
  pub held_out : Float
  pub seed : String
  pub smoke : Float

-- Floating-point arithmetic, the hash, and the order of Python's `sorted` on texts.
pub record Library : Type 1 where
  pub Float : Type 0
  pub add : Float → Float → Float
  pub times : Float → ℕ → Float
  -- `n < x`
  pub below : ℕ → Float → Bool
  -- int.from_bytes(hashlib.blake2b(text.encode(), digest_size=8).digest(), "big")
  pub blake2b : String → ℕ
  -- `a < b` on texts
  pub text_lt : String → String → Bool

-- `sorted(set(db_ids))`
module _ (L : Library) where
  unfoldable pub insert : String → List String → List String
  insert x [] = x ∷ []
  insert x (y ∷ ys) =
      if x == y then y ∷ ys else if L.text_lt x y then x ∷ y ∷ ys else y ∷ insert x ys

  unfoldable pub sorted_set : List String → List String
  unfolding insert
  sorted_set [] = []
  sorted_set (x ∷ xs) = insert x (sorted_set xs)

  abbrev pub buckets : ℕ
  buckets = 10000

  unfoldable pub bucket : String → String → ℕ
  bucket db_id seed = L.blake2b (seed ⧺ ":" ⧺ db_id) % buckets

  abbrev pub train_edge : SplitPolicy L.Float → L.Float
  train_edge rules = L.times rules.train buckets

  abbrev pub smoke_edge : SplitPolicy L.Float → L.Float
  smoke_edge rules = L.add (L.times rules.train buckets) (L.times rules.smoke buckets)

  abbrev pub dev_edge : SplitPolicy L.Float → L.Float
  dev_edge rules = L.add (train_edge rules) (L.times rules.dev buckets)

  -- The band of a position.
  unfoldable pub band : SplitPolicy L.Float → ℕ → Split
  band rules position =
      if L.below position (train_edge rules)
      then train
      else if L.below position (smoke_edge rules)
      then smoke
      else if L.below position (dev_edge rules)
      then dev
      else held_out

  -- The `for` loop of `assign`.
  unfoldable pub assign_each :
      SplitPolicy L.Float
      → List String
      → List String
      → List (String × Split)
      → List (String × Split)
  unfolding bucket band
  assign_each rules off_limits [] assignment = assignment
  assign_each rules off_limits (db_id ∷ db_ids) assignment = assign_each rules off_limits db_ids (
      assign_key db_id
        (if contains db_id off_limits then held_out else band rules (bucket db_id rules.seed))
        assignment)

  unfoldable pub assign :
      SplitPolicy L.Float → (db_ids reserved : List String) → List (String × Split)
  unfolding sorted_set assign_each
  assign rules db_ids reserved = assign_each rules reserved (sorted_set db_ids) []

abbrev pub is_trained_on : Split → Bool
is_trained_on held_out = false
is_trained_on _ = true

-- `leaked_databases`
unfoldable pub leaked_databases : List (String × Split) → List String → List String
leaked_databases [] evaluated = []
leaked_databases ((db, split) ∷ assignment) evaluated =
    if contains db evaluated && is_trained_on split
    then db ∷ leaked_databases assignment evaluated
    else leaked_databases assignment evaluated

abbrev pub with_found : Question → Option Split → Option Question
with_found question none = none
with_found question (some split) = some (record question { split = split })

-- The question with its split; None for the KeyError.
unfoldable pub stamp : List (String × Split) → Question → Option Question
stamp assignment question = with_found question (lookup question.db_id assignment)

abbrev pub cons_some : {A : Type 0} → Option A → Option (List A) → Option (List A)
cons_some none xs = none
cons_some (some x) none = none
cons_some (some x) (some xs) = some (x ∷ xs)

-- `apply`; None for the KeyError.
unfoldable pub apply : List Question → List (String × Split) → Option (List Question)
unfolding stamp
apply [] assignment = some []
apply (question ∷ questions) assignment =
    cons_some (stamp assignment question) (apply questions assignment)
