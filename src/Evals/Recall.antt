-- ===== src/Evals/Recall.antt =====
-- evals/recall.py: how much of what a reference query names was retrieved. The elements of the
-- reference query are given; a set is a list without repetitions.
pub mod Credit
use mcp_text_to_sql_agent.Prelude.{
  ℕ, zero, suc, ◌+◌, ◌-◌, String, Bool, true, false, not, ◌&&◌, ◌||◌, Option, none, some, List, [],
  ◌∷◌, ◌++◌, length, take, map, keep, any, contains, if◌then◌else◌, ◌==◌,
}
use mcp_text_to_sql_agent.Platform.{Platform}
use mcp_text_to_sql_agent.Evals.Taxonomy.{RecallResult}

abbrev pub default_k_values : List ℕ
default_k_values = 1 ∷ 5 ∷ 10 ∷ 20 ∷ []

pub record GoldElements : Type 0 where
  pub tables : List String
  pub columns : List (String × String)
  pub unresolved : List String
  pub parse_failed : Bool

abbrev pub is_nonempty : {A : Type 0} → List A → Bool
is_nonempty [] = false
is_nonempty (_ ∷ _) = true

unfoldable pub is_usable : GoldElements → Bool
is_usable g = not g.parse_failed && (is_nonempty g.columns || is_nonempty g.tables)

-- A table, or a column of it.
abbrev pub Target : Type 0
Target = String × Option String

-- `set(gold.columns) | {(table, None) for table in gold.tables}`
unfoldable pub targets : GoldElements → List Target
targets g =
    map (λ (c : String × String). (c.0, some c.1)) g.columns ++ map (λ t. (t, none)) g.tables

-- A result with the sizes beside it.
pub record Recall (Float : Type 0) : Type 0 where
  pub result : RecallResult Float
  pub gold_size : ℕ
  pub unresolved_count : ℕ

module _ (P : Platform) where
  open P use {casefold, Float}

  abbrev pub is_pair : String → String → Target → Bool
  is_pair table column (t, none) = false
  is_pair table column (t, some c) = (casefold t == table) && (casefold c == column)

  -- `(table, column) in seen_columns`
  unfoldable pub in_seen_columns : List Target → String → String → Bool
  in_seen_columns window table column = any (is_pair table column) window

  -- `table in seen_tables`
  unfoldable pub in_seen_tables : List Target → String → Bool
  in_seen_tables window table = any (λ (e : Target). casefold e.0 == table) window

  unfoldable pub is_found : List Target → Target → Bool
  unfolding in_seen_columns in_seen_tables
  is_found window (table, none) = in_seen_tables window table
  is_found window (table, some column) =
      in_seen_columns window table column || in_seen_tables window table

  -- How many of the targets are in the first `k` elements.
  unfoldable pub found_at : GoldElements → List Target → ℕ → ℕ
  unfolding is_found targets
  found_at gold retrieved k = length (keep (is_found (take k retrieved)) (targets gold))

  -- Recall at each `k`, of which none is repeated; `ratio` is `round(a / b, 4)`.
  unfoldable pub recall_at :
      (ℕ → ℕ → Float) → GoldElements → List Target → List ℕ → List (ℕ × Float)
  unfolding found_at targets
  recall_at ratio gold retrieved [] = []
  recall_at ratio gold retrieved (k ∷ ks) =
      (k, ratio (found_at gold retrieved k) (length (targets gold)))
      ∷ recall_at ratio gold retrieved ks

  unfoldable pub compute_recall :
      (ℕ → ℕ → Float) → GoldElements → List Target → List ℕ → Recall Float
  unfolding is_usable recall_at targets
  compute_recall ratio gold retrieved k_values =
      if is_usable gold
      then record {
        result = record { at_k = recall_at ratio gold retrieved k_values; skipped = false };
        gold_size = length (targets gold);
        unresolved_count = length gold.unresolved;
      }
      else record {
        result = record { at_k = []; skipped = true };
        gold_size = 0;
        unresolved_count = length gold.unresolved;
      }
