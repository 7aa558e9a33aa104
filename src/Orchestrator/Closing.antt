-- ===== src/Orchestrator/Closing.antt =====
-- How a run of the code pipeline moves a review and ends it (`advance`, `finish` and the exceptions of
-- `run`, in reviewer/orchestrator/pipeline.py), on the store.
pub mod Laws
use code_reviewer.Prelude.{
  ℕ, String, Bool, true, false, not, Option, none, some, ltb, if◌then◌else◌,
}
use code_reviewer.Prelude.Text.{str_eq}
use code_reviewer.States.{
  ReviewState, is_terminal, order_index, published, superseded, failed_context, failed_internal,
  cancelled,
}
use code_reviewer.Store.Rows.{get, Review, Database}
use code_reviewer.Store.Lifecycle.{Fields, Moved, moved, transition, mark_status}
use code_reviewer.Store.Admission.{accept, Accepted, not_configured}
use code_reviewer.Orchestrator.Machine.{replacement}
use code_reviewer.Decision.{
  Decision, comment_only, request_changes, approve, Enforcement, CommitStatus, status,
}

-- The clock, the id of a replacement, the head of the merge request when the run has turned out stale
-- (none where the query raises), whether the forge takes the commit status, and the recorded reason of
-- an exception that ends a report (`failure_reason`).
pub record Service : Type 0 where
  pub clock : ℕ
  pub new_id : String
  pub head_sha : Option String
  pub takes_status : Bool
  pub report_error : String

pub data Advanced : Type 0 where
  went_on stale_review raised : Advanced

abbrev before : Option ℕ → Option ℕ → Option Bool
before (some m) (some n) = some (ltb m n)
before _ _ = none

abbrev no_change : Fields
no_change = record { decision = none; partial = none; error = none }

abbrev went : Database × Moved → Database × Advanced
went (db, moved r) = (db, went_on)
went (db, _) = (db, raised)

abbrev pub step_forward : String → ReviewState → ℕ → Database → Option Bool → Database × Advanced
step_forward id state now db none = (db, raised)
step_forward id state now db (some false) = (db, went_on)
step_forward id state now db (some true) = went (transition id state no_change now db)

abbrev pub advance_found : Option Review → String → ReviewState → ℕ → Database → Database × Advanced
advance_found none id state now db = (db, raised)
advance_found (some r) id state now db =
    if is_terminal r.state
    then (db, stale_review)
    else step_forward id state now db (before (order_index r.state) (order_index state))

-- `advance`; `raised` is any other exception.
unfoldable pub advance : String → ReviewState → ℕ → Database → Database × Advanced
unfolding get order_index
advance id state now db = advance_found (get db id) id state now db

-- `str(decision)`.
abbrev pub decision_name : Decision → String
decision_name comment_only = "COMMENT_ONLY"
decision_name request_changes = "REQUEST_CHANGES"
decision_name approve = "APPROVE"

abbrev pub is_failure : ReviewState → Bool
is_failure failed_internal = true
is_failure failed_context = true
is_failure cancelled = true
is_failure superseded = true
is_failure _ = false

-- How `run` ends: with the final state and the commit status that was set, or with an exception.
pub data Closed : Type 0 where
  escaped : Closed
  closed : ReviewState → CommitStatus → Closed

abbrev pub report_status :
    Service → String → ReviewState → Decision → Enforcement → Database × Moved → Database × Closed
unfolding status mark_status
report_status s id state decision enforcement (db, moved r) =
    if s.takes_status
    then (mark_status id db, closed r.state (status decision enforcement (is_failure state)))
    else (db, escaped)
report_status s id state decision enforcement (db, _) = (db, escaped)

-- `finish`.
unfoldable pub finish :
    Service
    → String
    → ReviewState
    → Decision
    → Enforcement
    → Bool
    → Option String
    → Database
    → Database × Closed
unfolding transition report_status
finish s id state decision enforcement partial error db =
    let fields : Fields = record {
      decision = some (decision_name decision);
      partial = some partial;
      error = error;
    } in
    report_status s id state decision enforcement (transition id state fields s.clock db)

-- What the body of `run` comes to: a report, `StaleReview`, or another exception, which may be one of
-- collecting the context, with the recorded reason.
pub data Body : Type 0 where
  reported : Decision → Bool → Body
  went_stale : Body
  failed : Bool → String → Body

abbrev pub failed_state : Bool → ReviewState
failed_state true = failed_context
failed_state false = failed_internal

module _ (s : Service) (id head_sha : String) (project iid : ℕ) (enforcement : Enforcement) where
  abbrev has_moved : String → Bool
  has_moved current = not (str_eq current head_sha)

  -- What follows the admission of the new head; `accept` raises where the project is not configured.
  abbrev pub after_accept : Database × Accepted → Database × Closed
  unfolding finish
  after_accept (db, not_configured) = (db, escaped)
  after_accept (db, _) = finish s id superseded comment_only enforcement true none db

  -- The new head, if there is one, is admitted.
  abbrev pub after_stale : String → Database × Moved → Database × Closed
  unfolding finish
  after_stale current (db, moved r) =
      if has_moved current
      then after_accept (accept (replacement id current) project iid s.new_id s.clock db)
      else finish s id superseded comment_only enforcement true none db
  after_stale current (db, _) = (db, escaped)

  abbrev pub stale_fields : String → Fields
  stale_fields current =
      let reason : String = "The merge request received new commits during the review" in
      record {
        decision = none;
        partial = none;
        error = if has_moved current then some reason else none;
      }

  -- The handler of `StaleReview`, with the answer to its query.
  abbrev pub close_stale : Option String → Database → Database × Closed
  unfolding after_stale transition
  close_stale none db = (db, escaped)
  close_stale (some current) db =
      after_stale current (transition id superseded (stale_fields current) s.clock db)

  abbrev pub close_failed : Option Review → Bool → String → Database → Database × Closed
  unfolding finish
  close_failed none context error db = (db, escaped)
  close_failed (some r) context error db =
      if is_terminal r.state
      then (db, escaped)
      else finish s id (failed_state context) comment_only enforcement true (some error) db

  -- An exception of the report's `finish` meets the handler of other exceptions.
  abbrev pub close_reported : Database × Closed → Database × Closed
  unfolding close_failed get
  close_reported (db, closed state code) = (db, closed state code)
  close_reported (db, escaped) = close_failed (get db id) false s.report_error db

  -- The end of `run`.
  unfoldable pub close : Body → Database → Database × Closed
  unfolding close_stale close_failed close_reported get
  close (reported decision partial) db =
      close_reported (finish s id published decision enforcement partial none db)
  close went_stale db = close_stale s.head_sha db
  close (failed context error) db = close_failed (get db id) context error db
