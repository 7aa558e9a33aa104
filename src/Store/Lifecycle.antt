-- ===== src/Store/Lifecycle.antt =====
-- The transactions that move a review: `transition`, `stop`, `mark_status`, `cancel`, and the query
-- `pending` (reviewer/store/repositories.py).
use code_reviewer.Prelude.{
  ℕ, String, Bool, true, not, ◌||◌, Option, none, some, List, [], ◌∷◌, ◌++◌, map, ◌==◌,
  if◌then◌else◌, select_if, next_of,
}
use code_reviewer.States.{ReviewState, is_terminal, is_unstoppable, check_transition, cancelled}
use code_reviewer.Store.Rows.{
  Project, Database, Review, is_document, state_event, update_first, get, has_id, is_active_code,
  add_event,
}

-- The keyword arguments of `transition` that its callers set.
pub record Fields : Type 0 where
  pub decision : Option String
  pub partial : Option Bool
  pub error : Option String

abbrev pub no_fields : Fields
no_fields = record { decision = none; partial = none; error = none }

abbrev given {ℓ} : {A : Type ℓ} → Option A → A → A
given none old = old
given (some new) old = new

abbrev given_some {ℓ} : {A : Type ℓ} → Option A → Option A → Option A
given_some none old = old
given_some (some new) old = some new

-- An exception: of a row that is not there, and of an illegal transition.
pub data Moved : Type 0 where
  no_row illegal : Moved
  moved : Review → Moved

-- The writes of `transition` to a row.
abbrev pub enter : ReviewState → Fields → ℕ → Review → Review
enter state fields now r = record r {
  state = state;
  history = r.history ++ (state ∷ []);
  finished_at = if is_terminal state then some now else r.finished_at;
  decision = given_some fields.decision r.decision;
  partial = given fields.partial r.partial;
  error = given_some fields.error r.error;
}

-- `transition` of a row that was found.
unfoldable pub transition_row : Review → ReviewState → Fields → ℕ → Database → Database × Moved
unfolding update_first add_event
transition_row r state fields now db =
    if is_terminal r.state
    then (db, moved r)
    else if check_transition r.state state
    then (
      record db {
        reviews = update_first (has_id r.id) (enter state fields now) db.reviews;
        events = add_event r.id (state_event state) db.events;
      },
      moved (enter state fields now r),
    )
    else (db, illegal)

abbrev pub transition_found : Option Review → ReviewState → Fields → ℕ → Database → Database × Moved
unfolding transition_row
transition_found none state fields now db = (db, no_row)
transition_found (some r) state fields now db = transition_row r state fields now db

unfoldable pub transition : String → ReviewState → Fields → ℕ → Database → Database × Moved
unfolding get transition_found
transition id state fields now db = transition_found (get db id) state fields now db

-- The writes of `stop`. A page has no commit status left to deliver.
abbrev pub halt : ℕ → Review → Review
halt now r = record r {
  state = cancelled;
  history = r.history ++ (cancelled ∷ []);
  finished_at = some now;
  error = some "Stopped by its owner";
  status_delivered = if is_document r.kind then true else r.status_delivered;
}

-- `check_transition` is not written: every state that passes the guard may be cancelled.
unfoldable pub stop_row : Review → ℕ → Database → Database × Option Review
unfolding update_first add_event
stop_row r now db = if is_terminal r.state || is_unstoppable r.state then (db, none) else (
  record db {
    reviews = update_first (has_id r.id) (halt now) db.reviews;
    events = add_event r.id (state_event cancelled) db.events;
  },
  some (halt now r),
)

abbrev pub stop_found : Option Review → ℕ → Database → Database × Option Review
unfolding stop_row
stop_found none now db = (db, none)
stop_found (some r) now db = stop_row r now db

unfoldable pub stop : String → ℕ → Database → Database × Option Review
unfolding get stop_found
stop id now db = stop_found (get db id) now db

-- The write of `mark_status`.
abbrev pub delivered : Review → Review
delivered r = record r { status_delivered = true }

unfoldable pub mark_status : String → Database → Database
unfolding update_first
mark_status id db = record db { reviews = update_first (has_id id) delivered db.reviews }

-- The ids that `cancel` selects: the active reviews of a merge request of the project that has the
-- forge's number.
abbrev pub active_ids : Option Project → ℕ → List Review → List String
active_ids none iid reviews = []
active_ids (some project) iid reviews =
    map (λ r. r.id) (select_if (is_active_code project.id iid) reviews)

unfoldable pub cancel_each : List String → ℕ → Database → Database
unfolding transition
cancel_each [] now db = db
cancel_each (id ∷ ids) now db = cancel_each ids now (transition id cancelled no_fields now db).0

-- `cancel`: each selected review gets a transaction of its own.
unfoldable pub cancel : ℕ → ℕ → ℕ → Database → Database
unfolding cancel_each
cancel gitlab_project iid now db =
    let project = next_of (λ p. p.gitlab_project_id == gitlab_project) db.projects in
    cancel_each (active_ids project iid db.reviews) now db

-- `pending`: what the sweeper still has to work on.
unfoldable pub pending : Database → List Review
pending db = select_if (λ r. not r.status_delivered || not (is_terminal r.state)) db.reviews
