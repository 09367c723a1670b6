-- ===== src/Prelude/Dict.antt =====
-- Python's dicts with text keys, as association lists: a key has one entry, in insertion order.
use Prim.Native.String.{String}
use mathlib.Core.Path.{◌≡◌, refl, sym, ap, subst, ◌∙◌}
use mathlib.Core.Logic.{inl, inr}
use mathlib.Core.Bool.{Bool, true, false, ◌&&◌, false≢true}
use mathlib.Core.Option.{Option, none, some}
use mathlib.Core.List.{List, [], ◌∷◌}
use text.Mathlib.Text.{◌==◌}
use text.Mathlib.TextEquality.{eq_iff}
use text.Mathlib.TextPositions.{eq_refl}
use mcp_text_to_sql_agent.Prelude.Tests.{if◌then◌else◌, Bool-cases}
use mcp_text_to_sql_agent.Prelude.Lists.{all}

pub and_left : (a b : Bool) → a && b ≡ true → a ≡ true
and_left true b h = refl
and_left false b h = h

pub and_right : (a b : Bool) → a && b ≡ true → b ≡ true
and_right true b h = h
and_right false b h = absurd (false≢true h)

-- Two texts that differ, differ either way round.
pub differs-sym : (a b : String) → (a == b) ≡ false → (b == a) ≡ false
differs-sym a b h = elim (Bool-cases (b == a)) [
  | inl e ↦ absurd (false≢true (sym h ∙ (eq_iff a b).1 (sym ((eq_iff b a).0 e))))
  | inr e ↦ e
]

module _ {B : Type 0} where
  -- `table.get(key)`
  abbrev pub lookup : String → List (String × B) → Option B
  lookup key [] = none
  lookup key ((k, b) ∷ table) = if k == key then some b else lookup key table

  -- `table[key] = b`
  abbrev pub assign_key : String → B → List (String × B) → List (String × B)
  assign_key key b [] = (key, b) ∷ []
  assign_key key b ((k, c) ∷ table) =
      if k == key then (k, b) ∷ table else (k, c) ∷ assign_key key b table

  -- `value is not None`
  abbrev pub is_present : Option B → Bool
  is_present none = false
  is_present (some b) = true

  -- `key in table`
  abbrev pub has_key : String → List (String × B) → Bool
  has_key key table = is_present (lookup key table)

  pub lookup-assign_key_same :
      (key : String) (b : B) (table : List (String × B))
      → lookup key (assign_key key b table) ≡ some b
  lookup-assign_key_same key b [] = rw eq_refl
  lookup-assign_key_same key b ((k, c) ∷ table) = elim (Bool-cases (k == key)) [
    | inl e ↦ rw (e, e)
    | inr e ↦ rw (e, e) (lookup-assign_key_same key b table)
  ]

  pub lookup-assign_key_other :
      (key other : String) (b : B) (table : List (String × B))
      → (key == other) ≡ false
      → lookup other (assign_key key b table) ≡ lookup other table
  lookup-assign_key_other key other b [] h = rw h
  lookup-assign_key_other key other b ((k, c) ∷ table) h = elim (Bool-cases (k == key)) [
    | inl e ↦
        let differs : (k == other) ≡ false =
          subst (λ s. (s == other) ≡ false) (sym ((eq_iff k key).0 e)) h in
        rw (e, differs)
    | inr e ↦
        rw e
          (ap (λ t. if k == other then some c else t) (lookup-assign_key_other key other b table h))
  ]

  some-inj : {a b : B} → some a ≡ some b → a ≡ b
  some-inj h = cc h

  -- What a test finds true of every entry of a table is true of what a lookup in it finds.
  pub lookup-checked :
      (p : String → B → Bool) (key : String) (b : B) (table : List (String × B))
      → all (λ (e : String × B). p e.0 e.1) table ≡ true
      → lookup key table ≡ some b
      → p key b ≡ true
  lookup-checked p key b [] checked h = absurd (cc h)
  lookup-checked p key b ((k, c) ∷ table) checked h = elim (Bool-cases (k == key)) [
    | inl e ↦
        let here : c ≡ b = some-inj (rw e at h) in
        rw (← (eq_iff k key).0 e, ← here) (and_left (p k c) _ checked)
    | inr e ↦ lookup-checked p key b table (and_right (p k c) _ checked) (rw e at h)
  ]
