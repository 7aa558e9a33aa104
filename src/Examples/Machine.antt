-- ===== src/Examples/Machine.antt =====
-- Examples for the no-op pipeline (reviewer/orchestrator/machine.py).
use code_reviewer.Prelude.{◌+◌, ◌≡◌, refl, true, false, Option, none, some, [], ◌∷◌, map}
use code_reviewer.Store.Rows.{update_first, Review, Database, get}
use code_reviewer.States.{check_transition, is_terminal, published}
use code_reviewer.Orchestrator.Machine.{
  noop, advance, pass, loop, MergeRequest, answered, ended, Forge, End, run,
}
use code_reviewer.Examples.Store.{admitted}
use code_reviewer.Orchestrator.Machine.Laws.{run-terminal}
use code_reviewer.Store.Lifecycle.{mark_status, transition_row, transition}

abbrev open_request : MergeRequest
open_request = record { head_sha = "aaa"; state = "opened"; draft = false }

abbrev forge : Forge
forge = record {
  answer = λ k. answered open_request;
  clock = λ k. 200 + k;
  new_id = λ k. "r2";
  takes_status = true;
}

abbrev stored : Database
stored = record {
  projects = record { id = 1; gitlab_project_id = 42 } ∷ [];
  reviews = admitted ∷ [];
  triggers = [];
  events = [];
  stages = [];
  units = [];
  outcomes = [];
}

found : get stored "r1" ≡ some admitted
unfolding get
found = refl

run-terminal_example :
    (after : Database) × (last : Review) × (run forge "r1" 42 7 stored ≡ some (after, ended last))
    × (is_terminal last.state ≡ true)
run-terminal_example = run-terminal forge "r1" 42 7 admitted stored found refl

run_database : Option (Database × End) → Database
run_database none = stored
run_database (some p) = p.0

-- Three passes publish an open request.
published_last :
    map (λ r. r.state) (run_database (run forge "r1" 42 7 stored)).reviews ≡ published ∷ []
unfolding run_database run loop pass advance noop transition transition_row get update_first
    check_transition mark_status
published_last = refl
