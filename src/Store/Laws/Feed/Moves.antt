-- ===== src/Store/Laws/Feed/Moves.antt =====
-- The event feed under `transition`, `stop`, `cancel`, `mark_status` and `append_event`
-- (reviewer/store/repositories.py).
use code_reviewer.Prelude.{
  ℕ, String, ◌≡◌, refl, ◌∙◌, inl, inr, ◌||◌, some, List, [], ◌∷◌, Bool-cases, Option-cases, next_of,
}
use code_reviewer.Prelude.Text.{str_eq}
use code_reviewer.States.{ReviewState, cancelled, is_terminal, is_unstoppable, check_transition}
use code_reviewer.Store.Rows.{other_event, append_event, Database, Review, has_id, get}
use code_reviewer.Store.Laws.Updates.{update_first-none, get_self}
use code_reviewer.Store.Laws.Replay.{states_of-log, add_event-Numbered}
use code_reviewer.Store.Laws.Replay.Rows.{get_found, update_first-DistinctIds, get-update_first}
use code_reviewer.Store.Lifecycle.{
  delivered, no_fields, mark_status, cancel_each, transition, transition_row, stop, stop_row,
  Fields, enter, halt,
}
use code_reviewer.Store.Laws.Feed.{Told, write-Told}

transition_row-Told :
    (r : Review) (state : ReviewState) (fields : Fields) (now : ℕ) (db : Database)
    → get db r.id ≡ some r
    → Told db
    → Told (transition_row r state fields now db).0
unfolding transition_row get
transition_row-Told r state fields now db found t = elim (Bool-cases (is_terminal r.state)) [
  | inl e ↦ rw e t
  | inr e ↦ rw e (elim (Bool-cases (check_transition r.state state)) [
    | inl c ↦ rw c (
        write-Told (has_id r.id) (enter state fields now) state db r (λ x. refl) (λ x. refl) found
          t)
    | inr c ↦ rw c t
  ])
]

stop_row-Told :
    (r : Review) (now : ℕ) (db : Database)
    → get db r.id ≡ some r
    → Told db
    → Told (stop_row r now db).0
unfolding stop_row get
stop_row-Told r now db found t = elim (Bool-cases (is_terminal r.state || is_unstoppable r.state)) [
  | inl e ↦ rw e t
  | inr e ↦
      rw e (write-Told (has_id r.id) (halt now) cancelled db r (λ x. refl) (λ x. refl) found t)
]

pub transition-Told :
    (id : String) (state : ReviewState) (fields : Fields) (now : ℕ) (db : Database)
    → Told db
    → Told (transition id state fields now db).0
unfolding transition
transition-Told id state fields now db t = elim (Option-cases (get db id)) [
  | inl e ↦ rw e t
  | inr (r, e) ↦ rw e (transition_row-Told r state fields now db (get_self db id r e) t)
]

pub stop-Told : (id : String) (now : ℕ) (db : Database) → Told db → Told (stop id now db).0
unfolding stop
stop-Told id now db t = elim (Option-cases (get db id)) [
  | inl e ↦ rw e t
  | inr (r, e) ↦ rw e (stop_row-Told r now db (get_self db id r e) t)
]

-- Marking a status as delivered writes no history, and a progress event tells no state.
pub mark_status-Told : (id : String) (db : Database) → Told db → Told (mark_status id db)
unfolding mark_status get
mark_status-Told id db t = elim (Option-cases (next_of (has_id id) db.reviews)) [
  | inl e ↦ rw (update_first-none (has_id id) delivered db.reviews e) t
  | inr (r, e) ↦ record {
    distinct = update_first-DistinctIds (has_id id) delivered db.reviews (λ x. refl) t.distinct;
    numbered = t.numbered;
    told = λ j.
        t.told j
        ∙ rw (get-update_first (has_id id) delivered db.reviews r j (λ x. refl) t.distinct e)
            (elim (Bool-cases (str_eq r.id j)) [
              | inl h ↦ rw (h, get_found (has_id id) db.reviews r j t.distinct e h)
              | inr h ↦ rw h
            ]);
  }
]

pub log-Told :
    (id kind content : String) (db : Database)
    → Told db
    → Told (append_event db id (other_event kind content))
unfolding append_event
log-Told id kind content db t = elim (Option-cases (get db id)) [
  | inl e ↦ rw e t
  | inr (r, e) ↦ rw e (record {
    distinct = t.distinct;
    numbered = add_event-Numbered id (other_event kind content) db.events t.numbered;
    told = λ j. states_of-log id j kind content db.events ∙ t.told j;
  })
]

pub cancel_each-Told :
    (ids : List String) (now : ℕ) (db : Database) → Told db → Told (cancel_each ids now db)
unfolding cancel_each
cancel_each-Told [] now db t = t
cancel_each-Told (id ∷ ids) now db t =
    cancel_each-Told ids now (transition id cancelled no_fields now db).0
      (transition-Told id cancelled no_fields now db t)
