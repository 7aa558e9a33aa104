-- ===== src/Examples/Stages.antt =====
-- Examples for the workers of a stage (reviewer/orchestrator/stages.py).
use code_reviewer.Prelude.{
  ℕ, String, ◌≡◌, refl, inl, inr, true, false, none, List, [], ◌∷◌, map, arith, if◌then◌else◌,
  Bool-cases,
}
use code_reviewer.Prelude.Text.{str_eq, eq_of_str_eq}
use code_reviewer.Orchestrator.Stages.{
  take_unit, Execution, WorkUnit, Calls, Answer, answered, raised, taken, ended, Reach, begins,
  steps, begin, stage_result, no_result, merge, attempt, review_unit, end_unit, put, last_of,
}
use code_reviewer.Orchestrator.Stages.Order.{final_result}
use code_reviewer.Orchestrator.Stages.Runs.{Finished, WithinBudget, execute_in_any_order}
use code_reviewer.Orchestrator.Stages.Coverage.{covers, CachedCover, execute-covers}
use code_reviewer.Orchestrator.Stages.Progress.{Counted, Reach-Counted}

program : Unit {0}
unfolding attempt review_unit end_unit put merge last_of
program = tt

abbrev first : WorkUnit
first = record { id = "a.py#0"; omitted = false }

abbrev second : WorkUnit
second = record { id = "b.py#0"; omitted = false }

abbrev units : List WorkUnit
units = first ∷ second ∷ []

-- A proposal is a text; the agent examines the first unit and fails at the second.
abbrev answer_of : WorkUnit → ℕ → Answer String
answer_of u k =
    if str_eq u.id "a.py#0"
    then answered (record {
      findings = "claim" ∷ [];
      findings_truncated = false;
      notes_for_summary = "";
      units_examined = "a.py#0" ∷ [];
      units_skipped = [];
    })
    else raised

abbrev calls : Calls String
calls = record {
  has_scenario = λ f. true;
  answer = answer_of;
  cached = λ u. none;
  selected = "a.py#0" ∷ "b.py#0" ∷ [];
  late = λ u. false;
}

abbrev both : Execution String
both = take_unit calls second [] (take_unit calls first (second ∷ []) (begin units))

-- The second unit ends first.
abbrev done : Execution String
done = end_unit calls 0 first (end_unit calls 1 second both)

done-Reach : Reach calls 2 units done
unfolding program
done-Reach =
    steps
      (steps
        (steps (steps begins (taken first (second ∷ []) refl (omega arith)))
          (taken second [] refl (omega arith)))
        (ended 1 second refl refl))
      (ended 0 first refl refl)

done-Finished : Finished done
unfolding program
done-Finished = record { none_left = refl; none_busy = λ i. ground arith }

result_done : (stage_result done).examined ≡ "a.py#0" ∷ []
unfolding program
result_done = refl

partial_done : (stage_result done).partial ≡ true
unfolding program
partial_done = refl

calls-WithinBudget : WithinBudget calls units
unfolding program
calls-WithinBudget u = elim (Bool-cases (str_eq u.id "a.py#0")) [
  | inl e ↦ rw (eq_of_str_eq u.id "a.py#0" e) refl
  | inr e ↦ rw e refl
]

execute_in_any_order_example :
    stage_result done ≡ merge no_result (map (final_result calls false) units)
execute_in_any_order_example =
    execute_in_any_order calls units 2 done calls-WithinBudget done-Reach done-Finished

calls-CachedCover : CachedCover calls
calls-CachedCover u r e = absurd (ground (arith, e))

execute-covers_example : covers "b.py#0" (stage_result done) ≡ true
execute-covers_example =
    execute-covers calls 2 units done 1 second calls-CachedCover done-Reach done-Finished refl

Reach-Counted_example : Counted 2 units done
Reach-Counted_example = Reach-Counted calls 2 units done done-Reach
