-- ===== src/Orchestrator/Closing/Laws.antt =====
-- The ends of a run (reviewer/orchestrator/pipeline.py).
use code_reviewer.Prelude.{
  ℕ, String, ◌≡◌, refl, ap, ◌∙◌, ◌≢◌, inl, inr, Bool, true, false, not, Option, none, some, arith,
  if◌then◌else◌, Bool-cases, eq_of_some,
}
use code_reviewer.Prelude.Text.{str_eq}
use code_reviewer.States.{failed_context, failed_internal}
use code_reviewer.Store.Admission.{accept, Accepted, accepted, conflict, not_configured}
use code_reviewer.Orchestrator.Machine.{replacement}
use code_reviewer.Orchestrator.Closing.{after_accept, close_reported}
use code_reviewer.States.{ReviewState, is_terminal, check_transition}
use code_reviewer.Store.Rows.{get, Review, Database}
use code_reviewer.Store.Lifecycle.{
  Fields, Moved, moved, illegal, no_row, transition, mark_status, enter, delivered,
}
use code_reviewer.Decision.{
  Decision, comment_only, request_changes, Enforcement, gating, CommitStatus, status, failed_status,
  success_status,
}
use code_reviewer.Decision.Laws.{status-failed_iff}
use code_reviewer.States.{published, superseded}
use code_reviewer.States.Paths.{failure_edges_lem}
use code_reviewer.Orchestrator.Machine.Passes.{transition-moves}
use code_reviewer.Store.Laws.Updates.{found_written_self}
use code_reviewer.Orchestrator.Closing.{
  failed_state, stale_fields, is_failure, decision_name, after_stale, Service, Closed, closed,
  escaped, finish, report_status, close, close_stale, close_failed, Body, reported, went_stale,
  failed,
}

-- The commit status that was set.
abbrev pub set_status : Closed → Option CommitStatus
set_status escaped = none
set_status (closed state code) = some code

-- A report that requests changes.
abbrev pub requests_changes : Body → Bool
requests_changes (reported request_changes partial) = true
requests_changes _ = false

-- A status that was set is that of the decision.
report_status-set :
    (s : Service) (id : String) (state : ReviewState) (decision : Decision)
    (enforcement : Enforcement) (t : Database × Moved)
    → set_status (report_status s id state decision enforcement t).1 ≡ some failed_status
    → status decision enforcement (is_failure state) ≡ failed_status
unfolding report_status
report_status-set s id state decision enforcement (db, no_row) h = absurd (ground (arith, h))
report_status-set s id state decision enforcement (db, illegal) h = absurd (ground (arith, h))
report_status-set s id state decision enforcement (db, moved r) h =
    elim (Bool-cases s.takes_status) [
      | inl x ↦
          eq_of_some (status decision enforcement (is_failure state)) failed_status (rw x at h)
      | inr x ↦ absurd (ground (arith, (rw x at h)))
    ]

comment_only-success :
    (enforcement : Enforcement) (b : Bool) → status comment_only enforcement b ≡ success_status
unfolding status
comment_only-success enforcement b = ground arith

report_status-moved :
    (s : Service) (id : String) (state : ReviewState) (enforcement : Enforcement)
    (t : Database × Moved) (r : Review)
    → t.1 ≡ moved r
    → s.takes_status ≡ true
    → report_status s id state comment_only enforcement t
      ≡ (mark_status id t.0, closed r.state success_status)
unfolding report_status
report_status-moved s id state enforcement (db, m) r h takes =
    rw (h, takes)
      (ap (λ code. (mark_status id db, closed r.state code))
        (comment_only-success enforcement (is_failure state)))

get-mark_status :
    (id : String) (db : Database) (r : Review)
    → get db id ≡ some r
    → get (mark_status id db) id ≡ some (delivered r)
unfolding get mark_status
get-mark_status id db r h = found_written_self id delivered db.reviews r (λ x. refl) h

finish-failed :
    (s : Service) (id : String) (state : ReviewState) (decision : Decision)
    (enforcement : Enforcement) (partial : Bool) (error : Option String) (db : Database)
    → set_status (finish s id state decision enforcement partial error db).1 ≡ some failed_status
    → (decision ≡ request_changes) × (enforcement ≡ gating)
unfolding finish
finish-failed s id state decision enforcement partial error db h =
    let fields : Fields = record {
      decision = some (decision_name decision);
      partial = some partial;
      error = error;
    } in
    let k = (status-failed_iff decision enforcement (is_failure state)).0 (
      report_status-set s id state decision enforcement (transition id state fields s.clock db)
        h) in
    (k.0, k.1)

comment_only-passes :
    (s : Service) (id : String) (state : ReviewState) (enforcement : Enforcement) (partial : Bool)
    (error : Option String) (db : Database)
    → set_status (finish s id state comment_only enforcement partial error db).1
      ≢ some failed_status
comment_only-passes s id state enforcement partial error db =
    λ h. ground (arith, (finish-failed s id state comment_only enforcement partial error db h).0)

module _ (s : Service) (id head_sha : String) (project iid : ℕ) (enforcement : Enforcement) where
  after_accept-passes :
      (t : Database × Accepted)
      → set_status (after_accept s id head_sha project iid enforcement t).1 ≢ some failed_status
  unfolding after_accept
  after_accept-passes (db, not_configured) = λ h. ground (arith, h)
  after_accept-passes (db, accepted r) =
      comment_only-passes s id superseded enforcement true none db
  after_accept-passes (db, conflict) = comment_only-passes s id superseded enforcement true none db

  after_stale-passes :
      (current : String) (t : Database × Moved)
      → set_status (after_stale s id head_sha project iid enforcement current t).1
        ≢ some failed_status
  unfolding after_stale
  after_stale-passes current (db, no_row) = λ h. ground (arith, h)
  after_stale-passes current (db, illegal) = λ h. ground (arith, h)
  after_stale-passes current (db, moved r) = elim (Bool-cases (str_eq current head_sha)) [
    | inl x ↦ rw x (comment_only-passes s id superseded enforcement true none db)
    | inr x ↦
        rw x (after_accept-passes (accept (replacement id current) project iid s.new_id s.clock db))
  ]

  close_stale-passes :
      (o : Option String) (db : Database)
      → set_status (close_stale s id head_sha project iid enforcement o db).1 ≢ some failed_status
  unfolding close_stale
  close_stale-passes none db = λ h. ground (arith, h)
  close_stale-passes (some current) db = after_stale-passes current (
      transition id superseded (stale_fields s id head_sha project iid enforcement current) s.clock
        db)

  close_failed-passes :
      (o : Option Review) (context : Bool) (error : String) (db : Database)
      → set_status (close_failed s id head_sha project iid enforcement o context error db).1
        ≢ some failed_status
  unfolding close_failed
  close_failed-passes none context error db = λ h. ground (arith, h)
  close_failed-passes (some r) context error db = elim (Bool-cases (is_terminal r.state)) [
    | inl x ↦ rw x (λ h. ground (arith, h))
    | inr x ↦
        rw x (comment_only-passes s id (failed_state context) enforcement true (some error) db)
  ]

  close_reported-failed :
      (t : Database × Closed)
      → set_status (close_reported s id head_sha project iid enforcement t).1 ≡ some failed_status
      → set_status t.1 ≡ some failed_status
  unfolding close_reported
  close_reported-failed (db, closed state code) h = h
  close_reported-failed (db, escaped) h =
      absurd (close_failed-passes (get db id) false s.report_error db h)

  -- However a run ends, with a report, stale or with any other exception, it sets a failed commit
  -- status only for a report that requests changes, in gating mode.
  pub close-fails_check :
      (b : Body) (db : Database)
      → set_status (close s id head_sha project iid enforcement b db).1 ≡ some failed_status
      → (requests_changes b ≡ true) × (enforcement ≡ gating)
  unfolding close
  close-fails_check (reported decision partial) db h =
      let end = finish s id published decision enforcement partial none db in
      let k =
        finish-failed s id published decision enforcement partial none db
          (close_reported-failed end h) in
      (ap (λ d. requests_changes (reported d partial)) k.0, k.1)
  close-fails_check went_stale db h = absurd (close_stale-passes s.head_sha db h)
  close-fails_check (failed context error) db h =
      absurd (close_failed-passes (get db id) context error db h)

  -- The row of a failed run.
  abbrev pub failed_row : Bool → String → Review → Review
  failed_row context error r = delivered (
      enter (failed_state context)
        (record { decision = some "COMMENT_ONLY"; partial = some true; error = some error }) s.clock
        r)

  -- What is stored of a failed run.
  pub record IsFailedRow (context : Bool) (error : String) (row : Review) : Type 0 where
    pub has_failed : row.state ≡ (if context then failed_context else failed_internal)
    pub ended_now : row.finished_at ≡ some s.clock
    pub is_comment : row.decision ≡ some "COMMENT_ONLY"
    pub is_partial : row.partial ≡ true
    pub has_reason : row.error ≡ some error
    pub status_set : row.status_delivered ≡ true

  failed_row-IsFailedRow :
      (context : Bool) (error : String) (r : Review)
      → IsFailedRow context error (failed_row context error r)
  failed_row-IsFailedRow true error r = record {
    has_failed = refl;
    ended_now = refl;
    is_comment = refl;
    is_partial = refl;
    has_reason = refl;
    status_set = refl;
  }
  failed_row-IsFailedRow false error r = record {
    has_failed = refl;
    ended_now = refl;
    is_comment = refl;
    is_partial = refl;
    has_reason = refl;
    status_set = refl;
  }

  failed_edge :
      (context : Bool) (r : Review)
      → is_terminal r.state ≡ false
      → check_transition r.state (failed_state context) ≡ true
  failed_edge true r h = (failure_edges_lem r.state).1 ∙ ap not h
  failed_edge false r h = (failure_edges_lem r.state).0 ∙ ap not h

  finish-stores :
      (context : Bool) (error : String) (db : Database) (r : Review)
      → get db id ≡ some r
      → is_terminal r.state ≡ false
      → s.takes_status ≡ true
      → ((finish s id (failed_state context) comment_only enforcement true (some error) db).1
          ≡ closed (failed_state context) success_status)
        × (get
              (finish s id (failed_state context) comment_only enforcement true (some error) db).0
              id
            ≡ some (failed_row context error r))
  unfolding finish
  finish-stores context error db r found working takes =
      let state = failed_state context in
      let fields : Fields = record {
        decision = some "COMMENT_ONLY";
        partial = some true;
        error = some error;
      } in
      let t = transition id state fields s.clock db in
      let row = enter state fields s.clock r in
      let (answer, stored) =
        transition-moves id state fields s.clock db r found working
          (failed_edge context r working) in
      let end = report_status-moved s id state enforcement t row answer takes in
      (ap (λ x. x.1) end, ap (λ x. get x.0 id) end ∙ get-mark_status id t.0 row stored)

  -- A run of a stored review in a working state that ends with an exception other than
  -- StaleReview, where the forge takes the status, passes the check and stores the review as
  -- failed (FAILED_CONTEXT if the context could not be collected, else FAILED_INTERNAL), ended
  -- now, partial, as a comment only, with its reason and its status delivered.
  pub close-failed_run :
      (context : Bool) (error : String) (db : Database) (r : Review)
      → get db id ≡ some r
      → is_terminal r.state ≡ false
      → s.takes_status ≡ true
      → let end = close s id head_sha project iid enforcement (failed context error) db in
        (row : Review) × IsFailedRow context error row
        × (end.1 ≡ closed row.state success_status)
        × (get end.0 id ≡ some row)
  unfolding close close_failed
  close-failed_run context error db r found working takes =
      let (answer, stored) = finish-stores context error db r found working takes in
      (
        failed_row context error r,
        failed_row-IsFailedRow context error r,
        rw (found, working) answer,
        rw (found, working) stored,
      )
