-- ===== src/Store/Laws/Branches.antt =====
-- What the transactions answer on their branches (reviewer/store/repositories.py).
use code_reviewer.Prelude.{
  ℕ, String, ◌≡◌, refl, ap, ◌∙◌, ◌⊎◌, inl, inr, Bool, true, false, ◌||◌, Option, none, some, List,
  [], ◌∷◌, ◌++◌, arith, ◌==◌, if◌then◌else◌, Bool-cases, Option-cases, next_of,
}
use code_reviewer.Prelude.Text.{str_eq, str_eq_refl}
use code_reviewer.States.{is_terminal, is_unstoppable, check_transition, cancelled}
use code_reviewer.Store.Rows.{
  is_document, code, Database, Review, get, by_event, update_first, is_active_code,
}
use code_reviewer.Store.Admission.{
  not_configured, Request, accept, admit, supersede_active, supersede, add_review, new_review,
  accepted, conflict, is_refused,
}
use code_reviewer.Store.Lifecycle.{stop, stop_row, halt}
use code_reviewer.Store.Laws.Updates.{found_written}
use code_reviewer.States.Paths.{failure_edges_lem}

-- A write that keeps the event ids keeps what is not found by them.
absent-update_first :
    (event : String) (p : Review → Bool) (f : Review → Review) (rs : List Review)
    → ((r : Review) → (f r).event_id ≡ r.event_id)
    → next_of (λ r. str_eq r.event_id event) rs ≡ none
    → next_of (λ r. str_eq r.event_id event) (update_first p f rs) ≡ none
unfolding update_first
absent-update_first event p f [] keep h = refl
absent-update_first event p f (x ∷ rs) keep h = elim (Bool-cases (p x)) [
  | inl e ↦
      let apart : str_eq x.event_id event ≡ false =
        absent_head x (next_of (λ r. str_eq r.event_id event) rs) h in
      let rest : next_of (λ r. str_eq r.event_id event) rs ≡ none = rw apart at h in
      rw e (rw (keep x, apart) rest)
  | inr e ↦ rw e (elim (Bool-cases (str_eq x.event_id event)) [
    | inl k ↦ absurd (some_none x (rw k at h))
    | inr k ↦ rw k (absent-update_first event p f rs keep (rw k at h))
  ])
]
  where
    some_none : (y : Review) → ¬ (some y ≡ none)
    some_none y h' = cc

    absent_head :
        (y : Review) (o : Option Review)
        → (if str_eq y.event_id event then some y else o) ≡ none
        → str_eq y.event_id event ≡ false
    absent_head y o k = ground arith

absent-supersede_active :
    (event : String) (p : Review → Bool) (id : String) (now : ℕ) (db : Database)
    → by_event db event ≡ none
    → by_event (supersede_active p id now db) event ≡ none
unfolding by_event supersede_active
absent-supersede_active event p id now db h = elim (Option-cases (next_of p db.reviews)) [
  | inl e ↦ rw e h
  | inr (r, e) ↦ rw e (absent-update_first event p (supersede id now) db.reviews (λ x. refl) h)
]

found-append :
    (rs : List Review) (r : Review)
    → next_of (λ x. str_eq x.event_id r.event_id) rs ≡ none
    → next_of (λ x. str_eq x.event_id r.event_id) (rs ++ (r ∷ [])) ≡ some r
found-append [] r h = rw (str_eq_refl r.event_id)
found-append (x ∷ rs) r h = ground (arith, found-append rs r)

found-admit :
    (q : Request) (p i : ℕ) (id : String) (now : ℕ) (db : Database) (r : Review)
    → by_event db q.event_id ≡ none
    → (admit q p i id now db).1 ≡ accepted r
    → by_event (admit q p i id now db).0 q.event_id ≡ some r
unfolding admit add_review by_event
found-admit q p i id now db r absent h =
    elim (Bool-cases (is_refused q (next_of (is_active_code p i) db.reviews))) [
      | inl e ↦ absurd (conflict_accepted (rw e at h))
      | inr e ↦
          let review = new_review q code (some p) (some i) none id now in
          let same : accepted review ≡ accepted r = rw e at h in
          rw e (
            found-append (supersede_active (is_active_code p i) id now db).reviews review
              (absent-supersede_active q.event_id (is_active_code p i) id now db absent)
            ∙ ap some (of_accepted review same))
    ]
  where
    conflict_accepted : ¬ (conflict ≡ accepted r)
    conflict_accepted e = cc

    of_accepted : (x : Review) → accepted x ≡ accepted r → x ≡ r
    of_accepted x e = cc

admit-projects :
    (q : Request) (p i : ℕ) (id : String) (now : ℕ) (db : Database)
    → (admit q p i id now db).0.projects ≡ db.projects
unfolding admit supersede_active add_review
admit-projects q p i id now db =
    elim (Bool-cases (is_refused q (next_of (is_active_code p i) db.reviews))) [
      | inl e ↦ rw e
      | inr e ↦ rw e (elim (Option-cases (next_of (is_active_code p i) db.reviews)) [
        | inl g ↦ rw g
        | inr (r, g) ↦ rw g
      ])
    ]

-- Delivering an accepted request again, at any time and under any new id, answers with the same
-- review and changes nothing.
pub accept_redelivery :
    (q : Request) (project iid : ℕ) (id id' : String) (now now' : ℕ) (db : Database) (r : Review)
    → (accept q project iid id now db).1 ≡ accepted r
    → accept q project iid id' now' (accept q project iid id now db).0
      ≡ ((accept q project iid id now db).0, accepted r)
unfolding accept
accept_redelivery q project iid id id' now now' db r h =
    elim (Option-cases (next_of (λ p. p.gitlab_project_id == project) db.projects)) [
      | inl e ↦ absurd (not_accepted (rw e at h))
      | inr (j, e) ↦ rw e (elim (Option-cases (by_event db q.event_id)) [
        | inl g ↦
            let answer : (admit q j.id iid id now db).1 ≡ accepted r = rw (e, g) at h in
            rw (
              g,
              admit-projects q j.id iid id now db,
              e,
              found-admit q j.id iid id now db r g answer,
            )
        | inr (x, g) ↦
            let answer : accepted x ≡ accepted r = rw (e, g) at h in
            rw (g, e, g, of_accepted x answer)
      ])
    ]
  where
    not_accepted : ¬ (not_configured ≡ accepted r)
    not_accepted e = cc

    of_accepted : (x : Review) → accepted x ≡ accepted r → x ≡ r
    of_accepted x e = cc

-- Past the point where `stop` may take a review back.
abbrev pub is_settled : Review → Bool
is_settled r = is_terminal r.state || is_unstoppable r.state

-- The row of a review after its owner has stopped it.
pub record IsStopped (now : ℕ) (r row : Review) : Type 0 where
  pub same_id : row.id ≡ r.id
  pub is_cancelled : row.state ≡ cancelled
  pub last_state : row.history ≡ r.history ++ (cancelled ∷ [])
  pub ended_now : row.finished_at ≡ some now
  pub reason : row.error ≡ some "Stopped by its owner"
  pub no_status_due : is_document r.kind ≡ true → row.status_delivered ≡ true
  pub same_status : is_document r.kind ≡ false → row.status_delivered ≡ r.status_delivered

halt-IsStopped : (now : ℕ) (r : Review) → IsStopped now r (halt now r)
halt-IsStopped now r = record {
  same_id = refl;
  is_cancelled = refl;
  last_state = refl;
  ended_now = refl;
  reason = refl;
  no_status_due = λ h. rw h refl;
  same_status = λ h. rw h refl;
}

-- Nothing changed and the answer was none, or the review was cancelled, which was legal, and is what
-- its id finds from then on.
abbrev pub StopOutcome : String → ℕ → Database → Review → Type 0
StopOutcome id now db r =
    (is_settled r ≡ true) × (stop id now db ≡ (db, none))
    ⊎ (is_settled r ≡ false)
      × (check_transition r.state cancelled ≡ true)
      × (row : Review) × IsStopped now r row
      × ((stop id now db).1 ≡ some row)
      × (get (stop id now db).0 id ≡ some row)

-- stop of a review that is there changes nothing and answers none if the review is terminal or
-- publishing. Else the transition to CANCELLED is legal, and stop answers with the review, which
-- its id finds from then on, as CANCELLED, ended now, with the state in its history and the
-- owner's stop as its reason; the commit status counts as delivered for a document and is as it
-- was for code.
pub stop_cases :
    (id : String) (now : ℕ) (db : Database) (r : Review)
    → get db id ≡ some r
    → StopOutcome id now db r
unfolding stop stop_row get
stop_cases id now db r h = elim (Bool-cases (is_terminal r.state || is_unstoppable r.state)) [
  | inl e ↦ inl (e, rw (h, e))
  | inr e ↦ inr (
    e,
    ground (arith, failure_edges_lem r.state),
    halt now r,
    halt-IsStopped now r,
    rw (h, e),
    rw (h, e) (found_written id (halt now) db.reviews r (λ x. refl) h),
  )
]
