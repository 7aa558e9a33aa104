-- ===== src/Examples/UnitPlan.antt =====
-- Examples for the order of the units (reviewer/orchestrator/unit_plan.py).
use code_reviewer.Prelude.{ℕ, String, ◌≡◌, refl, List, [], ◌∷◌}
use code_reviewer.Prelude.Text.{str_eq}
use code_reviewer.Prelude.Sorting.{sort_by, insert_by}
use code_reviewer.Orchestrator.Streaming.{append_to}
use code_reviewer.Orchestrator.UnitPlan.{grouped, round, rounds, longest, plan, changed}
use code_reviewer.Orchestrator.UnitPlan.Laws.{counted, plan-conserves}

program : Unit {0}
unfolding grouped round rounds longest plan changed append_to sort_by insert_by
program = tt

-- Units by their path and number.
abbrev units : List (String × ℕ)
units = ("README.md", 0) ∷ ("b.py", 0) ∷ ("b.py", 1) ∷ ("a.py", 0) ∷ ("b.py", 2) ∷ ("a.py", 1) ∷ []

planned :
    plan (λ u. u.0) [] units
    ≡ ("a.py", 0) ∷ ("b.py", 0) ∷ ("README.md", 0) ∷ ("a.py", 1) ∷ ("b.py", 1) ∷ ("b.py", 2) ∷ []
unfolding program
planned = refl

plan-conserves_example :
    counted (λ u. str_eq u.0 "b.py") (plan (λ u. u.0) [] units)
    ≡ counted (λ u. str_eq u.0 "b.py") units
plan-conserves_example = plan-conserves (λ u. str_eq u.0 "b.py") (λ u. u.0) [] units
