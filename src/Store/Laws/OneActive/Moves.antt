-- ===== src/Store/Laws/OneActive/Moves.antt =====
-- At most one active review under `transition`, `stop`, `cancel`, `mark_status` and `append_event`
-- (reviewer/store/repositories.py).
use code_reviewer.Prelude.{
  ℕ, String, ◌≡◌, inl, inr, true, ◌||◌, some, List, [], ◌∷◌, arith, Bool-cases, Option-cases,
  next_of,
}
use code_reviewer.Store.Rows.{
  add_event, EventData, append_event, ReviewEvent, Database, Review, is_active_code,
  is_active_document, update_first, has_id, get,
}
use code_reviewer.Store.Laws.Updates.{update_first-none, get_self}
use code_reviewer.Store.Laws.Active.{OneActive, counted-write}
use code_reviewer.Store.Lifecycle.{
  delivered, mark_status, enter, halt, no_fields, Fields, transition_row, transition, stop_row,
  stop, cancel_each,
}
use code_reviewer.States.{check_transition, is_unstoppable, is_terminal, cancelled, ReviewState}

-- A write to the row that `get` finds, to a state no more active than the row's.
write-OneActive :
    (id : String) (f : Review → Review) (db : Database) (r : Review)
    → get db id ≡ some r
    → ((p i : ℕ) → is_active_code p i (f r) ≡ true → is_active_code p i r ≡ true)
    → ((key : String) → is_active_document key (f r) ≡ true → is_active_document key r ≡ true)
    → OneActive db
    → OneActive (record db { reviews = update_first (has_id id) f db.reviews })
unfolding get
write-OneActive id f db r found code_kept page_kept one = record {
  per_merge_request = λ p i. omega (
    arith,
    one.per_merge_request p i,
    counted-write (has_id id) (is_active_code p i) f db.reviews r found (code_kept p i),
  );
  per_page = λ key. omega (
    arith,
    one.per_page key,
    counted-write (has_id id) (is_active_document key) f db.reviews r found (page_kept key),
  );
}

-- The counts read the reviews alone.
events-OneActive :
    (db : Database) (es : List ReviewEvent) → OneActive db → OneActive (record db { events = es })
events-OneActive db es one = record {
  per_merge_request = one.per_merge_request;
  per_page = one.per_page;
}

transition_row-OneActive :
    (r : Review) (state : ReviewState) (fields : Fields) (now : ℕ) (db : Database)
    → get db r.id ≡ some r
    → OneActive db
    → OneActive (transition_row r state fields now db).0
unfolding transition_row
transition_row-OneActive r state fields now db found one = elim (Bool-cases (is_terminal r.state)) [
  | inl e ↦ rw e one
  | inr e ↦ rw e (elim (Bool-cases (check_transition r.state state)) [
    | inl c ↦ rw c (
        events-OneActive _ _ (
          write-OneActive r.id (enter state fields now) db r found (λ p i h. ground arith)
            (λ key h. ground arith) one))
    | inr c ↦ rw c one
  ])
]

stop_row-OneActive :
    (r : Review) (now : ℕ) (db : Database)
    → get db r.id ≡ some r
    → OneActive db
    → OneActive (stop_row r now db).0
unfolding stop_row
stop_row-OneActive r now db found one =
    elim (Bool-cases (is_terminal r.state || is_unstoppable r.state)) [
      | inl e ↦ rw e one
      | inr e ↦ rw e (
          events-OneActive _ _ (
            write-OneActive r.id (halt now) db r found (λ p i h. ground arith)
              (λ key h. ground arith) one))
    ]

pub transition-OneActive :
    (id : String) (state : ReviewState) (fields : Fields) (now : ℕ) (db : Database)
    → OneActive db
    → OneActive (transition id state fields now db).0
unfolding transition
transition-OneActive id state fields now db one = elim (Option-cases (get db id)) [
  | inl e ↦ rw e one
  | inr (r, e) ↦ rw e (transition_row-OneActive r state fields now db (get_self db id r e) one)
]

pub stop-OneActive :
    (id : String) (now : ℕ) (db : Database) → OneActive db → OneActive (stop id now db).0
unfolding stop
stop-OneActive id now db one = elim (Option-cases (get db id)) [
  | inl e ↦ rw e one
  | inr (r, e) ↦ rw e (stop_row-OneActive r now db (get_self db id r e) one)
]

pub cancel_each-OneActive :
    (ids : List String) (now : ℕ) (db : Database)
    → OneActive db
    → OneActive (cancel_each ids now db)
unfolding cancel_each
cancel_each-OneActive [] now db one = one
cancel_each-OneActive (id ∷ ids) now db one =
    cancel_each-OneActive ids now (transition id cancelled no_fields now db).0
      (transition-OneActive id cancelled no_fields now db one)

pub mark_status-OneActive :
    (id : String) (db : Database) → OneActive db → OneActive (mark_status id db)
unfolding mark_status get
mark_status-OneActive id db one = elim (Option-cases (next_of (has_id id) db.reviews)) [
  | inl e ↦
      rw (update_first-none (has_id id) delivered db.reviews e)
        (record { per_merge_request = one.per_merge_request; per_page = one.per_page })
  | inr (r, e) ↦ write-OneActive id delivered db r e (λ p i h. h) (λ key h. h) one
]

pub log-OneActive :
    (id : String) (payload : EventData) (db : Database)
    → OneActive db
    → OneActive (append_event db id payload)
unfolding append_event
log-OneActive id payload db one = elim (Option-cases (get db id)) [
  | inl e ↦ rw e one
  | inr (r, e) ↦ rw e (events-OneActive db (add_event id payload db.events) one)
]
