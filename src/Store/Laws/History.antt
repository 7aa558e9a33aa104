-- ===== src/Store/Laws/History.antt =====
-- Every review's recorded history is a chain of legal transitions that ends in its state
-- (reviewer/store/repositories.py).
pub mod Moves
use code_reviewer.Prelude.{
  ℕ, String, ◌≡◌, refl, ◌∙◌, inl, inr, Bool, true, false, ◌&&◌, Option, none, some, List, [], ◌∷◌,
  ◌++◌, arith, ◌==◌, Bool-cases, Option-cases, next_of, All, All-append,
}
use code_reviewer.Prelude.Text.{str_append}
use code_reviewer.States.{cancelled, ReviewState, superseded, is_terminal, check_transition}
use code_reviewer.Store.Rows.{
  document, code, by_event, Database, Review, is_active_code, is_active_document, Kind,
}
use code_reviewer.Store.Admission.{
  Request, supersede, supersede_active, add_review, new_review, admit, accept, accept_document,
  admit_document, is_refused, owned_by_other,
}
use code_reviewer.Store.Lifecycle.{Fields, enter, halt}
use code_reviewer.Store.Laws.Updates.{All-next_of, All-update_first, next_of_holds}
use code_reviewer.States.Paths.{failure_edges_lem}

-- Each state of the list may follow the one before it.
abbrev pub is_chain : List ReviewState → Bool
is_chain [] = true
is_chain (s ∷ []) = true
is_chain (s ∷ t ∷ l) = check_transition s t && is_chain (t ∷ l)

abbrev pub last_state : List ReviewState → Option ReviewState
last_state [] = none
last_state (s ∷ []) = some s
last_state (s ∷ t ∷ l) = last_state (t ∷ l)

abbrev is_set : Option ℕ → Bool
is_set none = false
is_set (some n) = true

pub record WellFormed (r : Review) : Type 0 where
  pub chained : is_chain r.history ≡ true
  pub ends : last_state r.history ≡ some r.state
  pub finished : is_set r.finished_at ≡ is_terminal r.state

last_state-append : (h : List ReviewState) (t : ReviewState) → last_state (h ++ (t ∷ [])) ≡ some t
last_state-append [] t = refl
last_state-append (s ∷ []) t = refl
last_state-append (s ∷ u ∷ l) t = last_state-append (u ∷ l) t

is_chain-append :
    (h : List ReviewState) (s t : ReviewState)
    → is_chain h ≡ true
    → last_state h ≡ some s
    → check_transition s t ≡ true
    → is_chain (h ++ (t ∷ [])) ≡ true
is_chain-append [] s t c e k = cc
is_chain-append (u ∷ []) s t c e k = ground arith
is_chain-append (u ∷ v ∷ l) s t c e k = ground (arith, is_chain-append (v ∷ l) s t)

new_review-WellFormed :
    (q : Request) (kind : Kind) (p i : Option ℕ) (key : Option String) (id : String) (now : ℕ)
    → WellFormed (new_review q kind p i key id now)
new_review-WellFormed q kind p i key id now = record {
  chained = refl;
  ends = refl;
  finished = refl;
}

-- The writes of the transactions, at a row that is not terminal.
supersede-WellFormed :
    (id : String) (now : ℕ) (r : Review)
    → is_terminal r.state ≡ false
    → WellFormed r
    → WellFormed (supersede id now r)
supersede-WellFormed id now r h w = record {
  chained =
      is_chain-append r.history r.state superseded w.chained w.ends
        (ground (arith, h, failure_edges_lem r.state));
  ends = last_state-append r.history superseded;
  finished = refl;
}

enter-WellFormed :
    (state : ReviewState) (fields : Fields) (now : ℕ) (r : Review)
    → is_terminal r.state ≡ false
    → check_transition r.state state ≡ true
    → WellFormed r
    → WellFormed (enter state fields now r)
enter-WellFormed state fields now r h c w = record {
  chained = is_chain-append r.history r.state state w.chained w.ends c;
  ends = last_state-append r.history state;
  finished = elim (Bool-cases (is_terminal state)) [ inl e ↦ rw e | inr e ↦ rw e (w.finished ∙ h) ];
}

halt-WellFormed :
    (now : ℕ) (r : Review) → is_terminal r.state ≡ false → WellFormed r → WellFormed (halt now r)
halt-WellFormed now r h w = record {
  chained =
      is_chain-append r.history r.state cancelled w.chained w.ends
        (ground (arith, h, failure_edges_lem r.state));
  ends = last_state-append r.history cancelled;
  finished = refl;
}

abbrev pub AllWellFormed : Database → Type 0
AllWellFormed db = All WellFormed db.reviews

-- A query that finds only reviews which are not terminal.
abbrev FindsLive : (Review → Bool) → Type 0
FindsLive p = (r : Review) → p r ≡ true → is_terminal r.state ≡ false

code-FindsLive : (project iid : ℕ) → FindsLive (is_active_code project iid)
code-FindsLive project iid r h = ground arith

document-FindsLive : (key : String) → FindsLive (is_active_document key)
document-FindsLive key r h = ground arith

supersede_active-AllWellFormed :
    (p : Review → Bool) (id : String) (now : ℕ) (db : Database)
    → FindsLive p
    → AllWellFormed db
    → AllWellFormed (supersede_active p id now db)
unfolding supersede_active
supersede_active-AllWellFormed p id now db live wf = elim (Option-cases (next_of p db.reviews)) [
  | inl e ↦ rw e wf
  | inr (r, e) ↦ rw e (
      All-update_first WellFormed p (supersede id now) db.reviews r e
        (supersede-WellFormed id now r (live r (next_of_holds p db.reviews r e))
          (All-next_of WellFormed p db.reviews r e wf))
        wf)
]

add_review-AllWellFormed :
    (r : Review) (db : Database) → WellFormed r → AllWellFormed db → AllWellFormed (add_review r db)
unfolding add_review
add_review-AllWellFormed r db w wf = All-append WellFormed db.reviews (r ∷ []) wf (w, tt)

module _ (q : Request) (id : String) (now : ℕ) (db : Database) (wf : AllWellFormed db) where
  admit-AllWellFormed : (p i : ℕ) → AllWellFormed (admit q p i id now db).0
  unfolding admit
  admit-AllWellFormed p i =
      elim (Bool-cases (is_refused q (next_of (is_active_code p i) db.reviews))) [
        | inl e ↦ rw e wf
        | inr e ↦ rw e (
            add_review-AllWellFormed (new_review q code (some p) (some i) none id now)
              (supersede_active (is_active_code p i) id now db)
              (new_review-WellFormed q code (some p) (some i) none id now)
              (supersede_active-AllWellFormed (is_active_code p i) id now db (code-FindsLive p i)
                wf))
      ]

  admit_document-AllWellFormed : (key : String) → AllWellFormed (admit_document q key id now db).0
  unfolding admit_document
  admit_document-AllWellFormed key =
      elim (Bool-cases
        (owned_by_other q.owner_user_id (next_of (is_active_document key) db.reviews))) [
          | inl e ↦ rw e wf
          | inr e ↦ rw e (
              add_review-AllWellFormed
                (new_review (record q { trigger_source = "manual" }) document none none (some key)
                  id now)
                (supersede_active (is_active_document key) id now db)
                (new_review-WellFormed (record q { trigger_source = "manual" }) document none none
                  (some key) id now)
                (supersede_active-AllWellFormed (is_active_document key) id now db
                  (document-FindsLive key) wf))
        ]

  pub accept-AllWellFormed : (p i : ℕ) → AllWellFormed (accept q p i id now db).0
  unfolding accept
  accept-AllWellFormed p i =
      elim (Option-cases (next_of (λ j. j.gitlab_project_id == p) db.projects)) [
        | inl e ↦ rw e wf
        | inr (j, e) ↦ rw e (elim (Option-cases (by_event db q.event_id)) [
          | inl g ↦ rw g (admit-AllWellFormed j.id i)
          | inr (r, g) ↦ rw g wf
        ])
      ]

  pub accept_document-AllWellFormed :
      (page : String) → AllWellFormed (accept_document q page id now db).0
  unfolding accept_document
  accept_document-AllWellFormed page = elim (Option-cases (by_event db q.event_id)) [
    | inl g ↦ rw g (admit_document-AllWellFormed (str_append "confluence:" page))
    | inr (r, g) ↦ rw g wf
  ]
