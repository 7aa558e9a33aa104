-- ===== src/Orchestrator/Machine/Laws.antt =====
-- The end of the loop, and of the whole run, of the no-op pipeline
-- (`ReviewStateMachine.run` of reviewer/orchestrator/machine.py).
use code_reviewer.Prelude.{
  ℕ, zero, suc, ◌≤◌, ◌<◌, String, ◌≡◌, refl, ap, inl, inr, true, Option, none, some, arith,
  Bool-cases,
}
use code_reviewer.Orchestrator.Machine.{
  pass, deliver, out_of_fuel, escaped, ended, Forge, run, loop, End,
}
use code_reviewer.Store.Rows.{Database, Review, get}
use code_reviewer.States.{is_terminal}
use code_reviewer.Orchestrator.Machine.Passes.{
  answer-Nearer, passes_left_pos, Nearer, passes_left_bound, passes_left,
}

module _ (f : Forge) (id : String) (project iid : ℕ) where
  -- The loop ends, with a review in a terminal state.
  abbrev pub Ends : ℕ → ℕ → Review → Database → Type 0
  Ends fuel k r db =
      (last : Review) × ((loop f id project iid fuel k r db).1 ≡ ended last)
      × (is_terminal last.state ≡ true)

  terminal-Ends :
      (fuel k : ℕ) (r : Review) (db : Database)
      → 0 < fuel
      → is_terminal r.state ≡ true
      → Ends fuel k r db
  unfolding loop
  terminal-Ends zero k r db h e = absurd (omega (arith, h))
  terminal-Ends (suc fuel) k r db h e = rw e (r, refl, e)

  after-Ends :
      (fuel k : ℕ) (r : Review) (p : Database × Option Review)
      → 0 < fuel
      → passes_left r.state ≤ fuel
      → ((next : Review) (db : Database)
          → get db id ≡ some next
          → passes_left next.state < fuel
          → Ends fuel (suc k) next db)
      → Nearer id r p
      → (last : Review) × ((elim p.1 as (λ o. Database × End) [
        | none ↦ (p.0, escaped)
        | some next ↦ loop f id project iid fuel (suc k) next p.0
      ]).1
          ≡ ended last)
        × (is_terminal last.state ≡ true)
  after-Ends fuel k r (db, none) some_fuel low ih near = absurd near
  after-Ends fuel k r (db, some next) some_fuel low ih (inl e) =
      terminal-Ends fuel (suc k) next db some_fuel e
  after-Ends fuel k r (db, some next) some_fuel low ih (inr (lt, g)) =
      ih next db g (omega (arith, lt, low))

  -- With as many passes as the state is away from the end, the loop ends the review.
  loop-Ends :
      (fuel k : ℕ) (r : Review) (db : Database)
      → get db id ≡ some r
      → passes_left r.state < fuel
      → Ends fuel k r db
  unfolding loop pass
  loop-Ends zero k r db h low = absurd (omega (arith, low))
  loop-Ends (suc fuel) k r db h low = elim (Bool-cases (is_terminal r.state)) [
    | inl e ↦ rw e (r, refl, e)
    | inr e ↦ rw e (
        after-Ends fuel k r (pass f id project iid k r db)
          (omega (arith, low, passes_left_pos r.state e)) (omega (arith, low))
          (λ next db. loop-Ends fuel (suc k) next db)
          (answer-Nearer f id project iid (f.answer k) k r db h e))
  ]

  -- Five units of fuel end the loop, whatever the forge answers or raises.
  pub loop-terminal : (r : Review) (db : Database) → get db id ≡ some r → Ends 5 0 r db
  loop-terminal r db h = loop-Ends 5 0 r db h (passes_left_bound r.state)

  deliver-ended :
      (p : Database × End) (last : Review)
      → f.takes_status ≡ true
      → p.1 ≡ ended last
      → (deliver f id project iid p).1 ≡ ended last
  unfolding deliver
  deliver-ended (db, out_of_fuel) last takes h = h
  deliver-ended (db, escaped) last takes h = h
  deliver-ended (db, ended r) last takes h = ground (arith, takes, h)

  -- For a review that is stored, and whatever the forge answers or raises to the queries, run ends
  -- with the review in a terminal state, if the forge takes the commit status.
  pub run-terminal :
      (r : Review) (db : Database)
      → get db id ≡ some r
      → f.takes_status ≡ true
      → (after : Database) × (last : Review) × (run f id project iid db ≡ some (after, ended last))
        × (is_terminal last.state ≡ true)
  unfolding run
  run-terminal r db h takes =
      let (last, e, terminal) = loop-terminal r db h in
      let p = loop f id project iid 5 0 r db in
      let d = deliver f id project iid p in
      (d.0, last, rw h (ap (λ x. some (d.0, x)) (deliver-ended p last takes e)), terminal)
