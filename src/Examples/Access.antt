-- ===== src/Examples/Access.antt =====
-- Examples for the access rules (reviewer/accounts/policy.py).
use code_reviewer.Prelude.{◌≡◌, refl, false, ◌&&◌, none, some, [], ◌∷◌}
use code_reviewer.States.{init}
use code_reviewer.Store.Lifecycle.{stop}
use code_reviewer.Access.{is_owner, run_controls, Account, user}
use code_reviewer.Store.Rows.{code, get, Review, Database}
use code_reviewer.Store.Admission.{new_review}
use code_reviewer.Access.Laws.{run_controls-stop, is_stopped, run_controls-exclusive}

abbrev owner : Account
owner = record { id = "u1"; role = user }

abbrev owned : Review
owned =
    record (new_review
      (record {
        head_sha = "aaa";
        event_id = "e1";
        overrides = none;
        owner_user_id = some "u1";
        credential_refs = none;
        principal_id = none;
        trigger_source = "manual";
      })
      code (some 1) (some 7) none "r1" 100) { partial = false }

abbrev stored : Database
stored = record {
  projects = [];
  reviews = owned ∷ [];
  triggers = [];
  events = [];
  stages = [];
  units = [];
  outcomes = [];
}

found : get stored "r1" ≡ some owned
unfolding get
found = refl

run_controls-stop_example :
    (run_controls owner owned.owner_user_id owned.state false).stop.allowed
    ≡ (is_owner owner owned.owner_user_id && is_stopped (stop "r1" 200 stored).1)
run_controls-stop_example = run_controls-stop owner "r1" owned false 200 stored found

run_controls-exclusive_example :
    ((run_controls owner (some "u1") init false).stop.allowed
      && (run_controls owner (some "u1") init false).retry.allowed)
    ≡ false
run_controls-exclusive_example = run_controls-exclusive owner (some "u1") init false
