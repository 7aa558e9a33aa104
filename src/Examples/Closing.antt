-- ===== src/Examples/Closing.antt =====
-- Examples for the end of a run (reviewer/orchestrator/pipeline.py).
use code_reviewer.Prelude.{◌≡◌, refl, true, false, some, [], ◌∷◌}
use code_reviewer.Store.Rows.{Review, Database, get}
use code_reviewer.States.{decision, check_transition}
use code_reviewer.Decision.{gating, request_changes, failed_status, success_status, status}
use code_reviewer.Orchestrator.Closing.{Service, close, reported, failed, closed, finish}
use code_reviewer.Orchestrator.Closing.Laws.{
  set_status, requests_changes, close-fails_check, close-failed_run, IsFailedRow,
}
use code_reviewer.Store.Lifecycle.{mark_status, transition_row, transition}
use code_reviewer.Store.Rows.{update_first}
use code_reviewer.Examples.Store.{admitted}

program : Unit {0}
unfolding close finish transition transition_row get update_first check_transition mark_status
    status
program = tt

abbrev service : Service
service = record {
  clock = 300;
  new_id = "r2";
  head_sha = some "aaa";
  takes_status = true;
  report_error = "Failed";
}

abbrev deciding : Review
deciding = record admitted { state = decision }

abbrev stored : Database
stored = record {
  projects = record { id = 1; gitlab_project_id = 42 } ∷ [];
  reviews = deciding ∷ [];
  triggers = [];
  events = [];
  stages = [];
  units = [];
  outcomes = [];
}

found : get stored "r1" ≡ some deciding
unfolding get
found = refl

fails_check :
    set_status (close service "r1" "aaa" 42 7 gating (reported request_changes false) stored).1
    ≡ some failed_status
unfolding program
fails_check = refl

close-fails_check_example :
    (requests_changes (reported request_changes false) ≡ true) × (gating ≡ gating)
close-fails_check_example =
    close-fails_check service "r1" "aaa" 42 7 gating (reported request_changes false) stored
      fails_check

close-failed_run_example :
    let end = close service "r1" "aaa" 42 7 gating (failed true "No context") stored in
    (row : Review) × IsFailedRow service "r1" "aaa" 42 7 gating true "No context" row
    × (end.1 ≡ closed row.state success_status)
    × (get end.0 "r1" ≡ some row)
close-failed_run_example =
    close-failed_run service "r1" "aaa" 42 7 gating true "No context" stored deciding found refl
      refl
