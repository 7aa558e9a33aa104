-- ===== src/Examples/States.antt =====
-- Examples for the state machine (reviewer/orchestrator/states.py).
use code_reviewer.Prelude.{ℕ, ◌≡◌, refl, false}
use code_reviewer.States.{
  init, context_collection, static_analysis, defect_review, published, cancelled, check_transition,
}
use code_reviewer.States.Paths.{Run, here, step, terminal_absorbs, reaches_published}

two_steps : Run init 2 static_analysis
unfolding check_transition
two_steps = step {t = context_collection} refl (step {t = static_analysis} refl here)

terminal_absorbs_example : check_transition published cancelled ≡ false
terminal_absorbs_example = terminal_absorbs published cancelled refl

reaches_published_example : (n : ℕ) × Run defect_review n published
reaches_published_example = reaches_published defect_review refl

-- Illegal although it is forward in ORDER: INIT does not skip context collection.
init_to_static : check_transition init static_analysis ≡ false
unfolding check_transition
init_to_static = refl
