-- ===== src/Access/Laws.antt =====
-- Laws of the access rules, and of them and the store together
-- (reviewer/accounts/policy.py, reviewer/store/repositories.py).
use code_reviewer.Prelude.{
  ℕ, String, ◌≡◌, sym, ap, ◌∙◌, ◌↔◌, Bool, true, false, not, ◌&&◌, ◌||◌, Option, none, some, arith,
}
use code_reviewer.Store.Lifecycle.{stop}
use code_reviewer.Access.{
  is_user, is_retryable, is_owner, granted, run_controls, review_access, Account,
}
use code_reviewer.Store.Rows.{get, Database, Review}
use code_reviewer.Store.Lifecycle.{stop_row}
use code_reviewer.States.{is_unstoppable, is_terminal, ReviewState}

-- The answer of the store's `stop`.
abbrev pub is_stopped : Option Review → Bool
is_stopped none = false
is_stopped (some r) = true

stop_control :
    (a : Account) (owner : Option String) (s : ReviewState) (overtaken : Bool)
    → (run_controls a owner s overtaken).stop.allowed
      ≡ (is_owner a owner && not (is_terminal s || is_unstoppable s))
unfolding run_controls
stop_control a owner s overtaken = ground arith

stop_row-is_stopped :
    (r : Review) (now : ℕ) (db : Database)
    → is_stopped (stop_row r now db).1 ≡ not (is_terminal r.state || is_unstoppable r.state)
unfolding stop_row
stop_row-is_stopped r now db = ground arith

-- For a stored review, the stop control is offered exactly to its owner, where the store's stop
-- would then stop it.
pub run_controls-stop :
    (a : Account) (id : String) (r : Review) (overtaken : Bool) (now : ℕ) (db : Database)
    → get db id ≡ some r
    → (run_controls a r.owner_user_id r.state overtaken).stop.allowed
      ≡ (is_owner a r.owner_user_id && is_stopped (stop id now db).1)
unfolding stop
run_controls-stop a id r overtaken now db h = rw h (
    stop_control a r.owner_user_id r.state overtaken
    ∙ ap (λ b. is_owner a r.owner_user_id && b) (sym (stop_row-is_stopped r now db)))

-- A retry is offered exactly to the owner of a failed review that nothing has overtaken.
pub run_controls-retry :
    (a : Account) (owner : Option String) (s : ReviewState) (overtaken : Bool)
    → (run_controls a owner s overtaken).retry.allowed
      ≡ (is_owner a owner && (is_retryable s && not overtaken))
unfolding run_controls
run_controls-retry a owner s overtaken = ground arith

-- Stop and retry are never both offered.
pub run_controls-exclusive :
    (a : Account) (owner : Option String) (s : ReviewState) (overtaken : Bool)
    → ((run_controls a owner s overtaken).stop.allowed
        && (run_controls a owner s overtaken).retry.allowed)
      ≡ false
unfolding run_controls
run_controls-exclusive a owner s overtaken = ground arith

-- Access to a stored review is granted exactly to its owner if that is a user, and to an admin who
-- does not execute it.
pub review_access-granted_iff :
    (a : Account) (db : Database) (id : String) (execute : Bool) (r : Review)
    → get db id ≡ some r
    → (review_access a db id execute ≡ granted r)
      ↔ ((is_owner a r.owner_user_id || (not (is_user a.role) && not execute)) ≡ true)
unfolding review_access
review_access-granted_iff a db id execute r h =
    rw h (λ g. ground (arith, g), λ g. ground (arith, g))
