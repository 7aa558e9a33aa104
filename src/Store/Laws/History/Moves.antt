-- ===== src/Store/Laws/History/Moves.antt =====
-- Well-formed histories under `transition`, `stop`, `cancel`, `mark_status` and `append_event`
-- (reviewer/store/repositories.py).
use code_reviewer.Prelude.{
  ℕ, String, ◌≡◌, inl, inr, false, ◌||◌, some, List, [], ◌∷◌, arith, Bool-cases, Option-cases,
  next_of, All,
}
use code_reviewer.States.{is_unstoppable, cancelled, ReviewState, is_terminal, check_transition}
use code_reviewer.Store.Rows.{EventData, append_event, Database, Review, update_first, has_id, get}
use code_reviewer.Store.Lifecycle.{
  delivered, no_fields, mark_status, cancel_each, transition, transition_row, stop, stop_row,
  Fields, enter, halt,
}
use code_reviewer.Store.Laws.Updates.{update_first-none, get_self, All-next_of, All-update_first}
use code_reviewer.Store.Laws.History.{WellFormed, enter-WellFormed, halt-WellFormed, AllWellFormed}

write-AllWellFormed :
    (id : String) (f : Review → Review) (db : Database) (r : Review)
    → get db id ≡ some r
    → (WellFormed r → WellFormed (f r))
    → AllWellFormed db
    → All WellFormed (update_first (has_id id) f db.reviews)
unfolding get
write-AllWellFormed id f db r found keep wf =
    All-update_first WellFormed (has_id id) f db.reviews r found
      (keep (All-next_of WellFormed (has_id id) db.reviews r found wf)) wf

transition_row-AllWellFormed :
    (r : Review) (state : ReviewState) (fields : Fields) (now : ℕ) (db : Database)
    → get db r.id ≡ some r
    → AllWellFormed db
    → AllWellFormed (transition_row r state fields now db).0
unfolding transition_row
transition_row-AllWellFormed r state fields now db found wf =
    elim (Bool-cases (is_terminal r.state)) [
      | inl e ↦ rw e wf
      | inr e ↦ rw e (elim (Bool-cases (check_transition r.state state)) [
        | inl c ↦ rw c (
            write-AllWellFormed r.id (enter state fields now) db r found
              (enter-WellFormed state fields now r e c) wf)
        | inr c ↦ rw c wf
      ])
    ]

stop_row-AllWellFormed :
    (r : Review) (now : ℕ) (db : Database)
    → get db r.id ≡ some r
    → AllWellFormed db
    → AllWellFormed (stop_row r now db).0
unfolding stop_row
stop_row-AllWellFormed r now db found wf =
    elim (Bool-cases (is_terminal r.state || is_unstoppable r.state)) [
      | inl e ↦ rw e wf
      | inr e ↦
          rw e
            (write-AllWellFormed r.id (halt now) db r found (halt-WellFormed now r (or_false e)) wf)
    ]
  where
    or_false : (is_terminal r.state || is_unstoppable r.state) ≡ false → is_terminal r.state ≡ false
    or_false e = ground arith

pub transition-AllWellFormed :
    (id : String) (state : ReviewState) (fields : Fields) (now : ℕ) (db : Database)
    → AllWellFormed db
    → AllWellFormed (transition id state fields now db).0
unfolding transition
transition-AllWellFormed id state fields now db wf = elim (Option-cases (get db id)) [
  | inl e ↦ rw e wf
  | inr (r, e) ↦ rw e (transition_row-AllWellFormed r state fields now db (get_self db id r e) wf)
]

pub stop-AllWellFormed :
    (id : String) (now : ℕ) (db : Database) → AllWellFormed db → AllWellFormed (stop id now db).0
unfolding stop
stop-AllWellFormed id now db wf = elim (Option-cases (get db id)) [
  | inl e ↦ rw e wf
  | inr (r, e) ↦ rw e (stop_row-AllWellFormed r now db (get_self db id r e) wf)
]

pub cancel_each-AllWellFormed :
    (ids : List String) (now : ℕ) (db : Database)
    → AllWellFormed db
    → AllWellFormed (cancel_each ids now db)
unfolding cancel_each
cancel_each-AllWellFormed [] now db wf = wf
cancel_each-AllWellFormed (id ∷ ids) now db wf =
    cancel_each-AllWellFormed ids now (transition id cancelled no_fields now db).0
      (transition-AllWellFormed id cancelled no_fields now db wf)

pub mark_status-AllWellFormed :
    (id : String) (db : Database) → AllWellFormed db → AllWellFormed (mark_status id db)
unfolding mark_status get
mark_status-AllWellFormed id db wf = elim (Option-cases (next_of (has_id id) db.reviews)) [
  | inl e ↦ rw (update_first-none (has_id id) delivered db.reviews e) wf
  | inr (r, e) ↦
      write-AllWellFormed id delivered db r e
        (λ w. record { chained = w.chained; ends = w.ends; finished = w.finished }) wf
]

pub log-AllWellFormed :
    (id : String) (payload : EventData) (db : Database)
    → AllWellFormed db
    → AllWellFormed (append_event db id payload)
unfolding append_event
log-AllWellFormed id payload db wf = elim (Option-cases (get db id)) [
  | inl e ↦ rw e wf
  | inr (r, e) ↦ rw e wf
]
