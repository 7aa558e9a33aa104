-- ===== src/Store/Laws/Runs.antt =====
-- Runs of transactions (reviewer/store/repositories.py) and what every database that they reach
-- satisfies.
use code_reviewer.Prelude.{ℕ, String, ◌≡◌, refl, none, List, [], arith, ◌==◌, next_of}
use code_reviewer.States.{ReviewState}
use code_reviewer.Store.Rows.{
  last_sequence, Database, Project, ReviewTrigger, other_event, get, append_event,
}
use code_reviewer.Store.Admission.{Request, accept, accept_document}
use code_reviewer.Store.Lifecycle.{active_ids, Fields, transition, stop, cancel, mark_status}
use code_reviewer.Store.Laws.Active.{OneActive}
use code_reviewer.Store.Laws.OneActive.{accept_document-OneActive, accept-OneActive}
use code_reviewer.Store.Laws.OneActive.Moves.{
  log-OneActive, mark_status-OneActive, cancel_each-OneActive, stop-OneActive, transition-OneActive,
}
use code_reviewer.Store.Laws.History.{
  accept_document-AllWellFormed, accept-AllWellFormed, AllWellFormed,
}
use code_reviewer.Store.Laws.History.Moves.{
  log-AllWellFormed, mark_status-AllWellFormed, cancel_each-AllWellFormed, stop-AllWellFormed,
  transition-AllWellFormed,
}
use code_reviewer.Store.Laws.Feed.{accept_document-Told, accept-Told, Told}
use code_reviewer.Store.Laws.Feed.Moves.{
  log-Told, mark_status-Told, cancel_each-Told, stop-Told, transition-Told,
}

-- One transaction. The id that `uuid4()` gives is one that no row has.
pub data Step : Database → Database → Type 0 where
  accepts :
      (q : Request) (project iid : ℕ) (id : String) (now : ℕ) (db : Database)
      → get db id ≡ none
      → Step db (accept q project iid id now db).0
  accepts_document :
      (q : Request) (page id : String) (now : ℕ) (db : Database)
      → get db id ≡ none
      → Step db (accept_document q page id now db).0
  transitions :
      (id : String) (state : ReviewState) (fields : Fields) (now : ℕ) (db : Database)
      → Step db (transition id state fields now db).0
  stops : (id : String) (now : ℕ) (db : Database) → Step db (stop id now db).0
  cancels : (project iid now : ℕ) (db : Database) → Step db (cancel project iid now db)
  marks : (id : String) (db : Database) → Step db (mark_status id db)
  logs :
      (id kind content : String) (db : Database)
      → Step db (append_event db id (other_event kind content))

pub data Reach : Database → Database → Type 0 where
  here : {db : Database} → Reach db db
  next : {a b c : Database} → Reach a b → Step b c → Reach a c

-- A database with projects and triggers, and no review yet.
abbrev pub empty : List Project → List ReviewTrigger → Database
empty projects triggers = record {
  projects = projects;
  reviews = [];
  triggers = triggers;
  events = [];
  stages = [];
  units = [];
  outcomes = [];
}

pub record Consistent (db : Database) : Type 0 where
  pub one : OneActive db
  pub rows : AllWellFormed db
  pub log : Told db

empty-Consistent :
    (projects : List Project) (triggers : List ReviewTrigger) → Consistent (empty projects triggers)
unfolding get
empty-Consistent projects triggers = record {
  one = record { per_merge_request = λ p i. omega arith; per_page = λ key. omega arith };
  rows = tt;
  log = record {
    distinct = tt;
    numbered = record { counts = λ id. unfold last_sequence in refl };
    told = λ id. refl;
  };
}

-- Each transaction keeps the invariant.
pub Step-Consistent : {a b : Database} → Step a b → Consistent a → Consistent b
unfolding cancel
Step-Consistent (accepts q project iid id now db fresh) c = record {
  one = accept-OneActive q id now db c.one project iid;
  rows = accept-AllWellFormed q id now db c.rows project iid;
  log = accept-Told q id now db fresh c.log project iid;
}
Step-Consistent (accepts_document q page id now db fresh) c = record {
  one = accept_document-OneActive q id now db c.one page;
  rows = accept_document-AllWellFormed q id now db c.rows page;
  log = accept_document-Told q id now db fresh c.log page;
}
Step-Consistent (transitions id state fields now db) c = record {
  one = transition-OneActive id state fields now db c.one;
  rows = transition-AllWellFormed id state fields now db c.rows;
  log = transition-Told id state fields now db c.log;
}
Step-Consistent (stops id now db) c = record {
  one = stop-OneActive id now db c.one;
  rows = stop-AllWellFormed id now db c.rows;
  log = stop-Told id now db c.log;
}
Step-Consistent (cancels project iid now db) c =
    let ids =
      active_ids (next_of (λ p. p.gitlab_project_id == project) db.projects) iid db.reviews in
    record {
      one = cancel_each-OneActive ids now db c.one;
      rows = cancel_each-AllWellFormed ids now db c.rows;
      log = cancel_each-Told ids now db c.log;
    }
Step-Consistent (marks id db) c = record {
  one = mark_status-OneActive id db c.one;
  rows = mark_status-AllWellFormed id db c.rows;
  log = mark_status-Told id db c.log;
}
Step-Consistent (logs id kind content db) c = record {
  one = log-OneActive id (other_event kind content) db c.one;
  rows = log-AllWellFormed id (other_event kind content) db c.rows;
  log = log-Told id kind content db c.log;
}

-- Every database that a run of transactions (accept, accept_document, transition, stop, cancel,
-- mark_status, append_event of other kinds, each new review under an unused id) reaches from one
-- without reviews has at most one active review for a merge request and for a page, histories that
-- are chains of legal transitions ending in the review's state with a finish time exactly if it is
-- terminal, distinct ids, "state" events that replay each history, and events numbered 1, 2, 3,
-- ... for each review.
pub Reach-Consistent :
    (projects : List Project) (triggers : List ReviewTrigger) {db : Database}
    → Reach (empty projects triggers) db
    → Consistent db
Reach-Consistent projects triggers here = empty-Consistent projects triggers
Reach-Consistent projects triggers (next r s) =
    Step-Consistent s (Reach-Consistent projects triggers r)
