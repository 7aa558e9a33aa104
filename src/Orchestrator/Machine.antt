-- ===== src/Orchestrator/Machine.antt =====
-- The no-op pipeline `ReviewStateMachine.run` (reviewer/orchestrator/machine.py) with `Store.noop`.
-- The forge is a parameter: what it answers at each pass.
pub mod Passes
pub mod Laws
use code_reviewer.Prelude.{
  ℕ, zero, suc, String, Bool, not, ◌&&◌, ◌||◌, Option, none, some, [], ◌∷◌, ◌++◌, if◌then◌else◌,
  any,
}
use code_reviewer.Prelude.Text.{str_append, str_eq}
use code_reviewer.States.{
  is_terminal, ReviewState, init, finalization, decision, published, superseded, cancelled,
  failed_internal,
}
use code_reviewer.Store.Rows.{get, ReviewStage, Review, Database}
use code_reviewer.Store.Lifecycle.{
  moved, illegal, no_row, no_fields, transition, Moved, mark_status, Fields,
}
use code_reviewer.Store.Admission.{accept, Request}

pub record MergeRequest : Type 0 where
  pub head_sha : String
  pub state : String
  pub draft : Bool

-- The answer to `get_merge_request`, or the name of the exception that it raises.
pub data Answer : Type 0 where
  raised : String → Answer
  answered : MergeRequest → Answer

-- The forge's answer, the clock and the id of a replacement at each pass, and whether the forge takes
-- the commit status.
pub record Forge : Type 0 where
  pub answer : ℕ → Answer
  pub clock : ℕ → ℕ
  pub new_id : ℕ → String
  pub takes_status : Bool

abbrev has_stage : String → ReviewStage → Bool
has_stage id s = str_eq s.review_id id && str_eq s.stage "noop"

-- `Store.noop`.
unfoldable pub noop : String → Database → Database
noop id db = if any (has_stage id) db.stages then db else record db {
  stages =
      db.stages
      ++ (record { review_id = id; stage = "noop"; status = "passed"; attempts = 1; coverage = "" }
          ∷ []);
}

-- `decision="COMMENT_ONLY"`.
abbrev pub comment_only : Option String → Fields
comment_only error = record { decision = some "COMMENT_ONLY"; partial = none; error = error }

abbrev pub failed : String → String → ℕ → Database → Database × Moved
failed id error now db = transition id failed_internal (comment_only (some error)) now db

-- What a pass of the loop does after the guards: it moves on, or raises.
unfoldable pub advance : String → ReviewState → ℕ → Database → Database × Moved
unfolding noop
advance id init now db = transition id finalization no_fields now (noop id db)
advance id finalization now db = transition id decision (comment_only none) now db
advance id decision now db = transition id published no_fields now db
advance id state now db = failed id "ValueError" now db

-- The replacement that `run` accepts when the head has moved.
abbrev pub replacement : String → String → Request
replacement id head = record {
  head_sha = head;
  event_id = str_append "supersede:" (str_append id (str_append ":" head));
  overrides = none;
  owner_user_id = none;
  credential_refs = none;
  principal_id = none;
  trigger_source = "system";
}

-- `current.state != "opened" or current.draft`.
abbrev pub is_closed : MergeRequest → Bool
is_closed m = not (str_eq m.state "opened") || m.draft

-- What an exception of a pass does: the review fails, unless that raises too (none).
abbrev pub failed_row : Database × Moved → Database × Option Review
failed_row (db, moved r) = (db, some r)
failed_row (db, _) = (db, none)

abbrev pub caught : String → ℕ → Database × Moved → Database × Option Review
caught id now (db, moved r) = (db, some r)
caught id now (db, illegal) = failed_row (failed id "ValueError" now db)
caught id now (db, no_row) = failed_row (failed id "AttributeError" now db)

-- How `run` ends: with a review, or with an exception; or the fuel is short.
pub data End : Type 0 where
  out_of_fuel escaped : End
  ended : Review → End

module _ (f : Forge) (id : String) (project iid : ℕ) where
  -- The end of a pass that found a new head: the review that was superseded. An `accept` that raises
  -- leaves it so, since `transition` leaves a terminal row alone.
  abbrev pub replaced : String → ℕ → Database × Option Review → Database × Option Review
  replaced head k (db, none) = (db, none)
  replaced head k (db, some r) =
      ((accept (replacement id head) project iid (f.new_id k) (f.clock k) db).0, some r)

  abbrev pub pass_on : Answer → ℕ → Review → Database → Database × Option Review
  unfolding advance
  pass_on (raised error) k r db = failed_row (failed id error (f.clock k) db)
  pass_on (answered m) k r db =
      let now = f.clock k in
      if not (str_eq m.head_sha r.head_sha)
      then replaced m.head_sha k (caught id now (transition id superseded no_fields now db))
      else if is_closed m
      then caught id now (transition id cancelled no_fields now db)
      else caught id now (advance id r.state now db)

  -- One pass of the loop: the database, and the review; none if an exception escapes `run`.
  unfoldable pub pass : ℕ → Review → Database → Database × Option Review
  unfolding pass_on
  pass k r db = pass_on (f.answer k) k r db

  -- The loop, from pass `k` on; a `break` leaves a terminal review, which ends it as well.
  unfoldable pub loop : ℕ → ℕ → Review → Database → Database × End
  unfolding pass
  loop zero k r db = (db, out_of_fuel)
  loop (suc fuel) k r db = if is_terminal r.state then (db, ended r) else elim (pass k r db).1 [
    | none ↦ ((pass k r db).0, escaped)
    | some next ↦ loop fuel (suc k) next (pass k r db).0
  ]

  -- The delivery of the commit status at the end of `run`; the forge may raise.
  abbrev pub deliver : Database × End → Database × End
  unfolding mark_status
  deliver (db, ended r) =
      if r.status_delivered
      then (db, ended r)
      else if f.takes_status
      then (mark_status id db, ended r)
      else (db, escaped)
  deliver (db, e) = (db, e)

  -- `run`; none for a review that is not there. A pass leaves a state that is nearer to the end, of which
  -- there are three before a terminal one.
  abbrev pub run_found : Option Review → Database → Option (Database × End)
  unfolding loop deliver
  run_found none db = none
  run_found (some r) db = some (deliver (loop 5 0 r db))

  unfoldable pub run : Database → Option (Database × End)
  unfolding run_found get
  run db = run_found (get db id) db
