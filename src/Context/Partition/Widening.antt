-- ===== src/Context/Partition/Widening.antt =====
-- The loops of `segments` that widen a run (reviewer/context/partition.py), and their fuel.
use code_reviewer.Prelude.{
  ℕ, zero, suc, ◌+◌, ◌≤◌, ◌<◌, ◌≡◌, sym, ◌⊎◌, inl, inr, true, false, List, [], ◌∷◌, arith,
  Bool-cases,
}
use code_reviewer.Prelude.Text.{Text}
use mathlib.Core.Path.{subst}
use code_reviewer.Context.Partition.{scope_text, in_scope, widen_high, largest}

in_scope-largest : (scope : List (ℕ × Text)) (n : ℕ) → in_scope scope n ≡ true → n ≤ largest scope
unfolding in_scope scope_text largest
in_scope-largest [] n h = ground (arith, h)
in_scope-largest ((m, t) ∷ scope) n h = ground (arith, h, in_scope-largest scope n)

-- The lines from one number up to another are all in the scope.
abbrev pub Covered : List (ℕ × Text) → ℕ → ℕ → Type 0
Covered scope low high = (n : ℕ) → low < n → n ≤ high → in_scope scope n ≡ true

widen_high-ends :
    (fuel : ℕ) (scope : List (ℕ × Text)) (high : ℕ)
    → largest scope ≤ high + fuel
    → (in_scope scope (suc (widen_high fuel scope high)) ≡ false)
      × (high ≤ widen_high fuel scope high)
      × Covered scope high (widen_high fuel scope high)
unfolding widen_high
widen_high-ends zero scope high h = elim (Bool-cases (in_scope scope (suc high))) [
  | inl e ↦ absurd (omega (arith, h, in_scope-largest scope (suc high) e))
  | inr e ↦ (e, omega arith, λ n low up. absurd (omega (arith, low, up)))
]
widen_high-ends (suc fuel) scope high h = elim (Bool-cases (in_scope scope (suc high))) [
  | inl e ↦
      let (stops, above, covered) = widen_high-ends fuel scope (suc high) (omega (arith, h)) in
      rw e (
        stops,
        omega (arith, above),
        λ n low up. elim (next_or_above n high low) [
          | inl same ↦ subst (λ k. in_scope scope k ≡ true) (sym same) e
          | inr more ↦ covered n more up
        ],
      )
  | inr e ↦ rw e (e, omega arith, λ n low up. absurd (omega (arith, low, up)))
]
  where
    next_or_above : (n high : ℕ) → high < n → (n ≡ suc high) ⊎ (suc high < n)
    next_or_above n high low = ground (arith, low)

-- A run is widened upward through all the lines of the scope that follow it, and no further: the
-- fuel is enough, whatever the scope.
pub widen_high_exact :
    (scope : List (ℕ × Text)) (high : ℕ)
    → (in_scope scope (suc (widen_high (largest scope) scope high)) ≡ false)
      × (high ≤ widen_high (largest scope) scope high)
      × Covered scope high (widen_high (largest scope) scope high)
widen_high_exact scope high = widen_high-ends (largest scope) scope high (omega arith)
