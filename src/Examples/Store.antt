-- ===== src/Examples/Store.antt =====
-- Examples for the store (reviewer/store/repositories.py).
use code_reviewer.Prelude.{String, ◌≡◌, refl, none, some, [], ◌∷◌, map}
use code_reviewer.States.{check_transition, init, context_collection, superseded}
use code_reviewer.Store.Rows.{Database, Review, get, code}
use code_reviewer.Store.Admission.{Request, accept, accepted, new_review}
use code_reviewer.Store.Lifecycle.{transition, stop, no_fields}
use code_reviewer.Store.Laws.Runs.{
  here, next, accepts, transitions, empty, Consistent, Reach-Consistent,
}
use code_reviewer.Store.Laws.Branches.{StopOutcome, accept_redelivery, stop_cases}

-- What the definitions below compute through.
program : Unit {0}
unfolding accept transition stop get check_transition
program = tt

abbrev request : String → String → Request
request event sha = record {
  head_sha = sha;
  event_id = event;
  overrides = none;
  owner_user_id = none;
  credential_refs = none;
  principal_id = none;
  trigger_source = "system";
}

abbrev start : Database
start = empty (record { id = 1; gitlab_project_id = 42 } ∷ []) []

abbrev first : Database
first = (accept (request "e1" "aaa") 42 7 "r1" 100 start).0

-- A push while the first review runs.
abbrev second : Database
second =
    (accept (request "e2" "bbb") 42 7 "r2" 200
      (transition "r1" context_collection no_fields 150 first).0).0

histories :
    map (λ r. r.history) second.reviews
    ≡ (init ∷ context_collection ∷ superseded ∷ []) ∷ (init ∷ []) ∷ []
unfolding program
histories = refl

Reach-Consistent_example : Consistent second
unfolding program
Reach-Consistent_example = Reach-Consistent start.projects [] (
    next
      (next (next here (accepts (request "e1" "aaa") 42 7 "r1" 100 start refl))
        (transitions "r1" context_collection no_fields 150 first))
      (accepts (request "e2" "bbb") 42 7 "r2" 200
        (transition "r1" context_collection no_fields 150 first).0 (unfold program in refl)))

abbrev pub admitted : Review
admitted = new_review (request "e1" "aaa") code (some 1) (some 7) none "r1" 100

first_answer : (accept (request "e1" "aaa") 42 7 "r1" 100 start).1 ≡ accepted admitted
unfolding program
first_answer = refl

accept_redelivery_example :
    accept (request "e1" "aaa") 42 7 "r9" 900 first ≡ (first, accepted admitted)
accept_redelivery_example =
    accept_redelivery (request "e1" "aaa") 42 7 "r1" "r9" 100 900 start admitted first_answer

first_row : get first "r1" ≡ some admitted
unfolding program
first_row = refl

stop_cases_example : StopOutcome "r1" 300 first admitted
stop_cases_example = stop_cases "r1" 300 first admitted first_row
