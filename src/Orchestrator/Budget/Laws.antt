-- ===== src/Orchestrator/Budget/Laws.antt =====
-- What the budget guarantees over all interleavings of calls (reviewer/orchestrator/budget.py).
use code_reviewer.Prelude.{
  ℕ, suc, ◌+◌, ◌-◌, ◌≤◌, ◌<◌, ◌≡◌, refl, ap, ◌∙◌, ◌⊎◌, inl, inr, Option, some, List, [], ◌∷◌, ◌++◌,
  arith, All, take, get_elem?,
}
use code_reviewer.Orchestrator.Budget.{
  or_again, Tracker, Stage, protected, Attempt, exhausted, granted, waits, floor, attempt, Wake,
  timeout, woken, reserve, settle,
}

-- A pass that grants tokens: the deadline is ahead, the grant is between the floor and what was
-- asked, and with it the tokens used and reserved leave the protected allowance untouched.
pub record Fits (t : Tracker) (now : ℕ) (stage : Stage) (tokens : ℕ) (minimum : Option ℕ) (n : ℕ)
    (t' : Tracker) : Type 0 where
  pub in_time : now < t.deadline
  pub enough : floor minimum tokens ≤ n
  pub not_more : n ≤ tokens
  pub within : protected t stage + t'.tokens_used + t'.reserved ≤ t.token_ceiling
  pub reserves : t' ≡ record t { reserved = t.reserved + n }

pub attempt-Fits :
    (t : Tracker) (now : ℕ) (stage : Stage) (tokens : ℕ) (minimum : Option ℕ) (n : ℕ) (t' : Tracker)
    → attempt t now stage tokens minimum ≡ granted n t'
    → Fits t now stage tokens minimum n t'
unfolding attempt
attempt-Fits t now stage tokens minimum n t' h = record {
  in_time = ground arith;
  enough = ground arith;
  not_more = ground arith;
  within = ground arith;
  reserves = ground arith;
}

-- A pass waits only if some tokens are reserved.
pub attempt_waits_for_others :
    (t : Tracker) (now : ℕ) (stage : Stage) (tokens : ℕ) (minimum : Option ℕ)
    → attempt t now stage tokens minimum ≡ waits
    → 0 < t.reserved
unfolding attempt
attempt_waits_for_others t now stage tokens minimum h = ground arith

-- What calls hold: their reservations, and how far calls that ended used more than they reserved.
pub record Books : Type 0 where
  pub tracker : Tracker
  pub held : List ℕ
  pub overdraft : ℕ

abbrev pub sum : List ℕ → ℕ
sum [] = 0
sum (n ∷ ns) = n + sum ns

-- A call reserves in some pass, or the call that reserved last, second to last, ... settles.
pub data Step : Books → Books → Type 0 where
  reserves_tokens :
      (b : Books) (now : ℕ) (stage : Stage) (tokens : ℕ) (minimum : Option ℕ) (n : ℕ) (t' : Tracker)
      → attempt b.tracker now stage tokens minimum ≡ granted n t'
      → Step b (record b { tracker = t'; held = n ∷ b.held })
  settles :
      (b : Books) (before after : List ℕ) (n used : ℕ)
      → b.held ≡ before ++ (n ∷ after)
      → Step b (record b {
        tracker = settle b.tracker n used;
        held = before ++ after;
        overdraft = b.overdraft + (used - n);
      })

pub data Reach (a : Books) : Books → Type 0 where
  here : Reach a a
  next : {b c : Books} → Reach a b → Step b c → Reach a c

pub record Balanced (ceiling : ℕ) (b : Books) : Type 0 where
  pub ceiling_kept : b.tracker.token_ceiling ≡ ceiling
  pub held_reserved : b.tracker.reserved ≡ sum b.held
  pub in_budget : b.tracker.tokens_used + b.tracker.reserved ≤ ceiling + b.overdraft

sum-append : (xs ys : List ℕ) → sum (xs ++ ys) ≡ sum xs + sum ys
sum-append [] ys = omega arith
sum-append (x ∷ xs) ys = omega (arith, sum-append xs ys)

Step-Balanced : {ceiling : ℕ} {a b : Books} → Step a b → Balanced ceiling a → Balanced ceiling b
unfolding settle
Step-Balanced (reserves_tokens b now stage tokens minimum n t' h) bal =
    let f = attempt-Fits b.tracker now stage tokens minimum n t' h in
    rw (f.reserves) (ground (arith, bal, f.within, f.reserves))
Step-Balanced (settles b before after n used e) bal =
    let total : sum b.held ≡ sum before + (n + sum after) =
      ap sum e ∙ sum-append before (n ∷ after) in
    record {
      ceiling_kept = bal.ceiling_kept;
      held_reserved = omega (arith, total, bal, sum-append before after);
      in_budget = omega (arith, total, bal);
    }

-- Over any interleaving of calls that reserve and settle, from a tracker with nothing reserved and
-- no more tokens used than its ceiling, what is reserved is what running calls hold, and the
-- tokens used and reserved exceed the ceiling by no more than calls overran their own
-- reservations.
pub Reach-Balanced :
    (t : Tracker) {b : Books}
    → t.reserved ≡ 0
    → t.tokens_used ≤ t.token_ceiling
    → Reach (record { tracker = t; held = []; overdraft = 0 }) b
    → Balanced t.token_ceiling b
Reach-Balanced t none_reserved fits here = record {
  ceiling_kept = refl;
  held_reserved = none_reserved;
  in_budget = omega arith;
}
Reach-Balanced t none_reserved fits (next r s) =
    Step-Balanced s (Reach-Balanced t none_reserved fits r)

-- A pass that goes on to wait.
abbrev pub Waits : Stage → ℕ → Option ℕ → Wake → Type 0
Waits stage tokens minimum timeout = ⊥
Waits stage tokens minimum (woken now t) = attempt t now stage tokens minimum ≡ waits

-- The passes up to one waited, and this one, at its time and in its state, granted the tokens.
abbrev pub GrantedInSomePass : Stage → ℕ → Option ℕ → List Wake → ℕ → Tracker → Type 0
GrantedInSomePass stage tokens minimum wakes n t' =
    (i now : ℕ) × (t : Tracker) × (get_elem? wakes i ≡ some (woken now t))
    × All (Waits stage tokens minimum) (take i wakes)
    × Fits t now stage tokens minimum n t'

or_again-granted :
    (a again : Attempt) (n : ℕ) (t' : Tracker)
    → or_again a again ≡ granted n t'
    → (a ≡ granted n t') ⊎ (a ≡ waits) × (again ≡ granted n t')
or_again-granted exhausted again n t' h = cc
or_again-granted (granted m t) again n t' h = inl h
or_again-granted waits again n t' h = inr (refl, h)

-- A call that is granted tokens was granted them at one of its wake-ups, after passes that all
-- waited: at a time before the deadline, between its floor and what it asked, and leaving the
-- protected allowance within the ceiling of the tracker that it met there.
pub reserve-Fits :
    (stage : Stage) (tokens : ℕ) (minimum : Option ℕ) (wakes : List Wake) (n : ℕ) (t' : Tracker)
    → reserve stage tokens minimum wakes ≡ granted n t'
    → GrantedInSomePass stage tokens minimum wakes n t'
unfolding reserve
reserve-Fits stage tokens minimum [] n t' h = cc
reserve-Fits stage tokens minimum (timeout ∷ wakes) n t' h = cc
reserve-Fits stage tokens minimum (woken now t ∷ wakes) n t' h =
    elim (or_again-granted (attempt t now stage tokens minimum) (reserve stage tokens minimum wakes)
      n t' h) [
        | inl e ↦ (0, now, t, refl, tt, attempt-Fits t now stage tokens minimum n t' e)
        | inr (w, e) ↦
            let (i, later, u, found, waited, fits) =
              reserve-Fits stage tokens minimum wakes n t' e in
            (suc i, later, u, found, (w, waited), fits)
      ]
