-- ===== src/Orchestrator/Machine/Passes.antt =====
-- What one pass of the no-op pipeline leaves
-- (`ReviewStateMachine.run` of reviewer/orchestrator/machine.py).
use code_reviewer.Prelude.{
  ℕ, ◌<◌, String, ◌≡◌, refl, sym, ap, ◌∙◌, ◌⊎◌, inl, inr, true, false, not, Option, none, some,
  arith, if◌then◌else◌, Bool-cases,
}
use code_reviewer.Prelude.Text.{str_eq}
use mathlib.Core.Path.{subst}
use code_reviewer.States.{
  check_transition, is_terminal, ReviewState, init, finalization, decision, published, superseded,
  cancelled, failed_internal,
}
use code_reviewer.Store.Lifecycle.{no_fields, Moved, enter, Fields, transition, moved}
use code_reviewer.Orchestrator.Machine.{
  is_closed, raised, answered, replaced, pass_on, Answer, Forge, noop, comment_only, failed_row,
  caught, advance, failed,
}
use code_reviewer.Store.Rows.{get, Database, Review}
use code_reviewer.Store.Laws.Updates.{found_written}
use code_reviewer.States.Paths.{failure_edges_lem}

-- How many passes a state is from the end of the pipeline.
abbrev pub passes_left : ReviewState → ℕ
passes_left init = 3
passes_left finalization = 2
passes_left s = if is_terminal s then 0 else 1

-- A legal transition of a review that is there writes it, and answers with it.
pub transition-moves :
    (id : String) (s : ReviewState) (fields : Fields) (now : ℕ) (db : Database) (r : Review)
    → get db id ≡ some r
    → is_terminal r.state ≡ false
    → check_transition r.state s ≡ true
    → ((transition id s fields now db).1 ≡ moved (enter s fields now r))
      × (get (transition id s fields now db).0 id ≡ some (enter s fields now r))
unfolding transition get
transition-moves id s fields now db r h open_state legal_step = rw h (
    rw (open_state, legal_step)
      (refl, found_written id (enter s fields now) db.reviews r (λ x. refl) h))

-- What a pass that does not escape leaves: a terminal review, or one nearer to the end, stored.
abbrev pub Nearer : String → Review → Database × Option Review → Type 0
Nearer id r (db, none) = ⊥
Nearer id r (db, some next) =
    (is_terminal next.state ≡ true)
    ⊎ ((passes_left next.state < passes_left r.state) × (get db id ≡ some next))

failed_row-moved :
    (t : Database × Moved) (r : Review) → t.1 ≡ moved r → failed_row t ≡ (t.0, some r)
failed_row-moved t r h = ground (arith, h)

caught-moved :
    (id : String) (now : ℕ) (t : Database × Moved) (r : Review)
    → t.1 ≡ moved r
    → caught id now t ≡ (t.0, some r)
caught-moved id now t r h = ground (arith, h)

-- A legal step of a stored review that is not terminal, to a terminal state or a nearer one.
moves-Nearer :
    (id : String) (s : ReviewState) (fields : Fields) (now : ℕ) (db : Database) (r : Review)
    → get db id ≡ some r
    → is_terminal r.state ≡ false
    → check_transition r.state s ≡ true
    → (is_terminal s ≡ true) ⊎ (passes_left s < passes_left r.state)
    → Nearer id r (caught id now (transition id s fields now db))
moves-Nearer id s fields now db r h open_state legal_step near =
    let t = transition-moves id s fields now db r h open_state legal_step in
    subst (Nearer id r)
      (sym (caught-moved id now (transition id s fields now db) (enter s fields now r) t.0))
      (elim near [ inl e ↦ inl e | inr e ↦ inr (e, t.1) ])

fails-Nearer :
    (id error : String) (now : ℕ) (db : Database) (r : Review)
    → get db id ≡ some r
    → is_terminal r.state ≡ false
    → Nearer id r (caught id now (failed id error now db))
fails-Nearer id error now db r h open_state =
    moves-Nearer id failed_internal (comment_only (some error)) now db r h open_state
      ((failure_edges_lem r.state).0 ∙ ap not open_state) (inl refl)

raises-Nearer :
    (id error : String) (now : ℕ) (db : Database) (r : Review)
    → get db id ≡ some r
    → is_terminal r.state ≡ false
    → Nearer id r (failed_row (failed id error now db))
raises-Nearer id error now db r h open_state =
    let fields = comment_only (some error) in
    let t =
      transition-moves id failed_internal fields now db r h open_state
        ((failure_edges_lem r.state).0 ∙ ap not open_state) in
    subst (Nearer id r)
      (sym (
        failed_row-moved (transition id failed_internal fields now db)
          (enter failed_internal fields now r) t.0))
      (inl refl)

get-noop : (id : String) (db : Database) → get (noop id db) id ≡ get db id
unfolding noop get
get-noop id db = ground arith

-- The step after the guards, for each state.
advance-Nearer :
    (id : String) (s : ReviewState) (now : ℕ) (db : Database) (r : Review)
    → get db id ≡ some r
    → r.state ≡ s
    → is_terminal r.state ≡ false
    → Nearer id r (caught id now (advance id s now db))
unfolding advance check_transition
advance-Nearer id init now db r h at open_state =
    moves-Nearer id finalization no_fields now (noop id db) r (get-noop id db ∙ h) open_state
      (ap (λ s. check_transition s finalization) at) (inr (rw at (omega arith)))
advance-Nearer id finalization now db r h at open_state =
    moves-Nearer id decision (comment_only none) now db r h open_state
      (ap (λ s. check_transition s decision) at) (inr (rw at (omega arith)))
advance-Nearer id decision now db r h at open_state =
    moves-Nearer id published no_fields now db r h open_state
      (ap (λ s. check_transition s published) at) (inl refl)
advance-Nearer id _ now db r h at open_state = fails-Nearer id "ValueError" now db r h open_state

pub passes_left_bound : (s : ReviewState) → passes_left s < 5
passes_left_bound init = omega arith
passes_left_bound finalization = omega arith
passes_left_bound _ = ground arith

pub passes_left_pos : (s : ReviewState) → is_terminal s ≡ false → 0 < passes_left s
passes_left_pos init h = omega arith
passes_left_pos finalization h = omega arith
passes_left_pos _ h = ground (arith, h)

module _ (f : Forge) (id : String) (project iid : ℕ) where
  replaced-Nearer :
      (head : String) (k now : ℕ) (db : Database) (r : Review)
      → get db id ≡ some r
      → is_terminal r.state ≡ false
      → Nearer id r (
          replaced f id project iid head k
            (caught id now (transition id superseded no_fields now db)))
  replaced-Nearer head k now db r h open_state =
      let t =
        transition-moves id superseded no_fields now db r h open_state
          ((failure_edges_lem r.state).3 ∙ ap not open_state) in
      subst (λ o. Nearer id r (replaced f id project iid head k o))
        (sym (
          caught-moved id now (transition id superseded no_fields now db)
            (enter superseded no_fields now r) t.0))
        (inl refl)

  pub answer-Nearer :
      (a : Answer) (k : ℕ) (r : Review) (db : Database)
      → get db id ≡ some r
      → is_terminal r.state ≡ false
      → Nearer id r (pass_on f id project iid a k r db)
  unfolding pass_on
  answer-Nearer (raised error) k r db h open_state =
      raises-Nearer id error (f.clock k) db r h open_state
  answer-Nearer (answered m) k r db h open_state =
      elim (Bool-cases (str_eq m.head_sha r.head_sha)) [
        | inl e ↦ rw e (elim (Bool-cases (is_closed m)) [
          | inl c ↦ rw c (
              moves-Nearer id cancelled no_fields (f.clock k) db r h open_state
                ((failure_edges_lem r.state).2 ∙ ap not open_state) (inl refl))
          | inr c ↦ rw c (advance-Nearer id r.state (f.clock k) db r h refl open_state)
        ])
        | inr e ↦ rw e (replaced-Nearer m.head_sha k (f.clock k) db r h open_state)
      ]
