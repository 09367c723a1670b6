-- ===== src/Prelude/Int.antt =====
-- Python's integers where the program may receive a negative one.
use Prim.Native.Nat.{ℕ, ◌≤◌, min, max}
use mathlib.Core.Path.{◌≡◌}
use mathlib.Core.Bool.{Bool, true, false}
use native.Mathlib.Omega.{arith}
use mcp_text_to_sql_agent.Prelude.Tests.{leb, if◌then◌else◌}

-- `negsuc n` is -(n + 1).
pub data ℤ : Type 0 where
  pos : ℕ → ℤ
  negsuc : ℕ → ℤ

-- `a <= b`
abbrev pub le_ℤ : ℤ → ℤ → Bool
le_ℤ (pos a) (pos b) = leb a b
le_ℤ (pos a) (negsuc b) = false
le_ℤ (negsuc a) (pos b) = true
le_ℤ (negsuc a) (negsuc b) = leb b a

abbrev pub max_ℤ : ℤ → ℤ → ℤ
max_ℤ a b = if le_ℤ a b then b else a

abbrev pub min_ℤ : ℤ → ℤ → ℤ
min_ℤ a b = if le_ℤ a b then a else b

-- `max(low, min(value, high))` for bounds that are not negative: the result is not negative either.
unfoldable pub clamp : ℕ → ℤ → ℕ → ℕ
clamp low (pos n) high = max low (min n high)
clamp low (negsuc n) high = low

-- The natural number that `clamp` gives is Python's integer.
pub clamp-eq-max-min :
    (low : ℕ) (value : ℤ) (high : ℕ)
    → pos (clamp low value high) ≡ max_ℤ (pos low) (min_ℤ value (pos high))
unfolding clamp
clamp-eq-max-min low (pos n) high = ground arith
clamp-eq-max-min low (negsuc n) high = ground arith

pub clamp_bounds :
    (low : ℕ) (value : ℤ) (high : ℕ)
    → low ≤ high
    → (low ≤ clamp low value high) × (clamp low value high ≤ high)
unfolding clamp
clamp_bounds low (pos n) high h = omega arith
clamp_bounds low (negsuc n) high h = omega arith

-- A value inside the bounds is kept.
pub clamp_inside : (low n high : ℕ) → low ≤ n → n ≤ high → clamp low (pos n) high ≡ n
unfolding clamp
clamp_inside low n high h k = omega arith
