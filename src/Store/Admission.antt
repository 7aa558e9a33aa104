-- ===== src/Store/Admission.antt =====
-- Admission of reviews: `accept` and `accept_document` (reviewer/store/repositories.py).
use code_reviewer.Prelude.{
  ℕ, String, Bool, false, not, ◌&&◌, ◌||◌, Option, none, some, [], ◌∷◌, ◌++◌, ◌==◌, if◌then◌else◌,
  next_of,
}
use code_reviewer.Prelude.Text.{str_append, str_eq, opt_str_eq}
use code_reviewer.States.{superseded, init}
use code_reviewer.Store.Rows.{
  Project, Database, Review, Kind, code, document, conflict_trigger, admitted_trigger, state_event,
  update_first, by_event, is_active_code, is_active_document, add_event, set_trigger,
}

-- `raise ValueError`, `return None`, and the review that is returned.
pub data Accepted : Type 0 where
  not_configured : Accepted
  conflict : Accepted
  accepted : Review → Accepted

-- What the caller says of a request, but for its target.
pub record Request : Type 0 where
  pub head_sha : String
  pub event_id : String
  pub overrides : Option String
  pub owner_user_id : Option String
  pub credential_refs : Option String
  pub principal_id : Option String
  pub trigger_source : String

-- A new row with the column defaults; `id` is the `uuid4()` and `now` the clock.
abbrev pub new_review : Request → Kind → Option ℕ → Option ℕ → Option String → String → ℕ → Review
new_review q kind project_id mr_iid subject_key id now = record {
  id = id;
  owner_user_id = q.owner_user_id;
  trigger_source = q.trigger_source;
  credential_refs = q.credential_refs;
  principal_id = q.principal_id;
  event_id = q.event_id;
  kind = kind;
  project_id = project_id;
  mr_iid = mr_iid;
  subject_key = subject_key;
  head_sha = q.head_sha;
  state = init;
  decision = none;
  partial = false;
  overrides = q.overrides;
  execution_config = none;
  started_at = now;
  finished_at = none;
  superseded_by = none;
  error = none;
  status_delivered = false;
  history = init ∷ [];
}

-- The write to the review that a newer one replaces.
abbrev pub supersede : String → ℕ → Review → Review
supersede review_id now r = record r {
  state = superseded;
  history = r.history ++ (superseded ∷ []);
  finished_at = some now;
  superseded_by = some review_id;
}

-- The active row is superseded, and the event says so; without one nothing happens.
abbrev pub supersede_found : Option Review → (Review → Bool) → String → ℕ → Database → Database
unfolding update_first add_event
supersede_found none is_active review_id now db = db
supersede_found (some active) is_active review_id now db = record db {
  reviews = update_first is_active (supersede review_id now) db.reviews;
  events = add_event active.id (state_event superseded) db.events;
}

unfoldable pub supersede_active : (Review → Bool) → String → ℕ → Database → Database
unfolding supersede_found
supersede_active is_active review_id now db =
    supersede_found (next_of is_active db.reviews) is_active review_id now db

-- The end of both methods: add the row, settle the trigger, log the first state.
unfoldable pub add_review : Review → Database → Database
unfolding add_event set_trigger
add_review r db = record db {
  reviews = db.reviews ++ (r ∷ []);
  triggers = set_trigger r.event_id admitted_trigger db.triggers;
  events = add_event r.id (state_event init) db.events;
}

abbrev pub mark_conflict : String → Database → Database
unfolding set_trigger
mark_conflict event_id db = record db {
  triggers = set_trigger event_id conflict_trigger db.triggers;
}

-- `active and active.owner_user_id != owner_user_id`, for the query's result.
abbrev pub owned_by_other : Option String → Option Review → Bool
owned_by_other owner none = false
owned_by_other owner (some active) = not (opt_str_eq active.owner_user_id owner)

abbrev pub same_head : String → Option Review → Bool
same_head sha none = false
same_head sha (some active) = str_eq active.head_sha sha

-- Another owner's active review is displaced only by the system, and only at a new head.
abbrev pub is_refused : Request → Option Review → Bool
is_refused q active =
    owned_by_other q.owner_user_id active
    && (not (str_eq q.trigger_source "system") || same_head q.head_sha active)

-- `accept` once the project is known and the event is new.
unfoldable pub admit : Request → ℕ → ℕ → String → ℕ → Database → Database × Accepted
unfolding supersede_active add_review mark_conflict
admit q project iid id now db =
    let review = new_review q code (some project) (some iid) none id now in
    if is_refused q (next_of (is_active_code project iid) db.reviews)
    then (mark_conflict q.event_id db, conflict)
    else (
      add_review review (supersede_active (is_active_code project iid) id now db),
      accepted review,
    )

abbrev pub accept_event :
    Option Review → Request → ℕ → ℕ → String → ℕ → Database → Database × Accepted
unfolding admit
accept_event (some existing) q project iid id now db = (db, accepted existing)
accept_event none q project iid id now db = admit q project iid id now db

abbrev pub accept_project :
    Option Project → Request → ℕ → String → ℕ → Database → Database × Accepted
unfolding by_event accept_event
accept_project none q iid id now db = (db, not_configured)
accept_project (some project) q iid id now db =
    accept_event (by_event db q.event_id) q project.id iid id now db

unfoldable pub accept : Request → ℕ → ℕ → String → ℕ → Database → Database × Accepted
unfolding accept_project
accept q gitlab_project iid id now db =
    accept_project (next_of (λ p. p.gitlab_project_id == gitlab_project) db.projects) q iid id now
      db

-- `accept_document` once the event is new. The version of the page is `q.head_sha`, and the source is
-- always "manual".
unfoldable pub admit_document : Request → String → String → ℕ → Database → Database × Accepted
unfolding supersede_active add_review mark_conflict
admit_document q key id now db =
    let q' = record q { trigger_source = "manual" } in
    let review = new_review q' document none none (some key) id now in
    if owned_by_other q.owner_user_id (next_of (is_active_document key) db.reviews)
    then (mark_conflict q.event_id db, conflict)
    else (add_review review (supersede_active (is_active_document key) id now db), accepted review)

abbrev pub document_event :
    Option Review → Request → String → String → ℕ → Database → Database × Accepted
unfolding admit_document
document_event (some existing) q key id now db = (db, accepted existing)
document_event none q key id now db = admit_document q key id now db

unfoldable pub accept_document : Request → String → String → ℕ → Database → Database × Accepted
unfolding by_event document_event
accept_document q page_id id now db =
    document_event (by_event db q.event_id) q (str_append "confluence:" page_id) id now db
