-- ===== src/Store/Laws/Feed.antt =====
-- Each transaction keeps the rows and the event log in agreement
-- (reviewer/store/repositories.py): see `Told`.
pub mod Moves
use code_reviewer.Prelude.{
  ℕ, String, ◌≡◌, refl, sym, ap, ◌∙◌, inl, inr, Bool, Option, none, some, List, [], ◌∷◌, ◌++◌, ◌==◌,
  Bool-cases, Option-cases, next_of,
}
use code_reviewer.Prelude.Text.{str_append, str_eq, eq_of_str_eq}
use mathlib.Core.List.{append-nil}
use mathlib.Core.Path.{subst}
use code_reviewer.States.{ReviewState, init, superseded}
use code_reviewer.Store.Rows.{
  by_event, Database, Review, state_event, is_active_code, is_active_document, update_first, has_id,
  get, code, document, add_event,
}
use code_reviewer.Store.Laws.Replay.{states_of, states_of-add_event, Numbered, add_event-Numbered}
use code_reviewer.Store.Laws.Replay.Rows.{
  get_found, DistinctIds, KeepsId, update_first-DistinctIds, get-update_first, get-append,
  append-DistinctIds,
}
use code_reviewer.Store.Admission.{
  mark_conflict, Request, supersede, supersede_active, add_review, new_review, admit, accept,
  accept_document, admit_document, is_refused, owned_by_other,
}

-- The history of the row that a query found.
abbrev pub history_of : Option Review → List ReviewState
history_of none = []
history_of (some r) = r.history

-- The log and the rows agree.
pub record Told (db : Database) : Type 0 where
  pub distinct : DistinctIds db.reviews
  pub numbered : Numbered db.events
  pub told : (id : String) → states_of id db.events ≡ history_of (get db id)

-- Writing a state to a row and logging it keep the agreement.
write-Told :
    (p : Review → Bool) (f : Review → Review) (s : ReviewState) (db : Database) (r : Review)
    → KeepsId f
    → ((x : Review) → (f x).history ≡ x.history ++ (s ∷ []))
    → next_of p db.reviews ≡ some r
    → Told db
    → Told (record db {
      reviews = update_first p f db.reviews;
      events = add_event r.id (state_event s) db.events;
    })
unfolding get
write-Told p f s db r keep grows found t = record {
  distinct = update_first-DistinctIds p f db.reviews keep t.distinct;
  numbered = add_event-Numbered r.id (state_event s) db.events t.numbered;
  told = λ j. elim (Bool-cases (str_eq r.id j)) [
    | inl e ↦
        states_of-add_event r.id j s db.events
        ∙ rw (e, get-update_first p f db.reviews r j keep t.distinct found, e, grows r)
            (ap (λ h. h ++ (s ∷ []))
              (t.told j ∙ ap history_of (get_found p db.reviews r j t.distinct found e)))
    | inr e ↦
        states_of-add_event r.id j s db.events
        ∙ rw (e, append-nil, get-update_first p f db.reviews r j keep t.distinct found, e)
            (t.told j)
  ];
}

supersede_active-Told :
    (p : Review → Bool) (id : String) (now : ℕ) (db : Database)
    → Told db
    → Told (supersede_active p id now db)
unfolding supersede_active
supersede_active-Told p id now db t = elim (Option-cases (next_of p db.reviews)) [
  | inl e ↦ rw e t
  | inr (r, e) ↦ rw e (write-Told p (supersede id now) superseded db r (λ x. refl) (λ x. refl) e t)
]

-- Superseding finds the same ids.
supersede_active-absent :
    (p : Review → Bool) (id j : String) (now : ℕ) (db : Database)
    → DistinctIds db.reviews
    → get db j ≡ none
    → get (supersede_active p id now db) j ≡ none
unfolding supersede_active get
supersede_active-absent p id j now db d absent = elim (Option-cases (next_of p db.reviews)) [
  | inl e ↦ rw e absent
  | inr (r, e) ↦
      rw (e, get-update_first p (supersede id now) db.reviews r j (λ x. refl) d e)
        (elim (Bool-cases (str_eq r.id j)) [
          | inl h ↦ absurd (some_none r (sym (get_found p db.reviews r j d e h) ∙ absent))
          | inr h ↦ rw h absent
        ])
]
  where
    some_none : (x : Review) → ¬ (some x ≡ none)
    some_none x h = cc

-- A new row whose id no row has.
add_review-Told :
    (r : Review) (db : Database)
    → r.history ≡ init ∷ []
    → get db r.id ≡ none
    → Told db
    → Told (add_review r db)
unfolding add_review get
add_review-Told r db starts fresh t = record {
  distinct = append-DistinctIds db.reviews r fresh t.distinct;
  numbered = add_event-Numbered r.id (state_event init) db.events t.numbered;
  told = λ j. elim (Bool-cases (str_eq r.id j)) [
    | inl e ↦
        let none_told : states_of j db.events ≡ [] =
          t.told j
          ∙ ap history_of
              (subst (λ i. next_of (has_id i) db.reviews ≡ none) (eq_of_str_eq r.id j e) fresh) in
        states_of-add_event r.id j init db.events
        ∙ rw (e, none_told, get-append db.reviews r j fresh, e) (sym starts)
    | inr e ↦
        states_of-add_event r.id j init db.events
        ∙ rw (e, append-nil, get-append db.reviews r j fresh, e) (t.told j)
  ];
}

same_rows-Told :
    (db db' : Database) → db'.reviews ≡ db.reviews → db'.events ≡ db.events → Told db → Told db'
unfolding get
same_rows-Told db db' rows log t = record {
  distinct = rw rows t.distinct;
  numbered = rw log t.numbered;
  told = λ j. rw (rows, log) (t.told j);
}

module _ (q : Request) (id : String) (now : ℕ) (db : Database) (fresh : get db id ≡ none)
    (t : Told db) where
  admit-Told : (p i : ℕ) → Told (admit q p i id now db).0
  unfolding admit
  admit-Told p i = elim (Bool-cases (is_refused q (next_of (is_active_code p i) db.reviews))) [
    | inl e ↦ rw e (same_rows-Told db (mark_conflict q.event_id db) refl refl t)
    | inr e ↦ rw e (
        add_review-Told (new_review q code (some p) (some i) none id now)
          (supersede_active (is_active_code p i) id now db) refl
          (supersede_active-absent (is_active_code p i) id id now db t.distinct fresh)
          (supersede_active-Told (is_active_code p i) id now db t))
  ]

  admit_document-Told : (key : String) → Told (admit_document q key id now db).0
  unfolding admit_document
  admit_document-Told key =
      elim (Bool-cases
        (owned_by_other q.owner_user_id (next_of (is_active_document key) db.reviews))) [
          | inl e ↦ rw e (same_rows-Told db (mark_conflict q.event_id db) refl refl t)
          | inr e ↦ rw e (
              add_review-Told
                (new_review (record q { trigger_source = "manual" }) document none none (some key)
                  id now)
                (supersede_active (is_active_document key) id now db) refl
                (supersede_active-absent (is_active_document key) id id now db t.distinct fresh)
                (supersede_active-Told (is_active_document key) id now db t))
        ]

  pub accept-Told : (p i : ℕ) → Told (accept q p i id now db).0
  unfolding accept
  accept-Told p i = elim (Option-cases (next_of (λ j. j.gitlab_project_id == p) db.projects)) [
    | inl e ↦ rw e t
    | inr (j, e) ↦ rw e (elim (Option-cases (by_event db q.event_id)) [
      | inl g ↦ rw g (admit-Told j.id i)
      | inr (r, g) ↦ rw g t
    ])
  ]

  pub accept_document-Told : (page : String) → Told (accept_document q page id now db).0
  unfolding accept_document
  accept_document-Told page = elim (Option-cases (by_event db q.event_id)) [
    | inl g ↦ rw g (admit_document-Told (str_append "confluence:" page))
    | inr (r, g) ↦ rw g t
  ]
