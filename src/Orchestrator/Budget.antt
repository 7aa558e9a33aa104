-- ===== src/Orchestrator/Budget.antt =====
-- The token budget (reviewer/orchestrator/budget.py). Its condition variable makes each pass of
-- `reserve` and each `settle` atomic; times are seconds.
pub mod Laws
use code_reviewer.Prelude.{
  ℕ, ◌+◌, ◌-◌, min, ◌||◌, Option, none, some, List, [], ◌∷◌, ltb, leb, ◌==◌, if◌then◌else◌,
}

-- `budget.deadline_at`, less `deadline_reserve_s`, is `deadline`.
pub record Tracker : Type 0 where
  pub token_ceiling : ℕ
  pub final_stage_token_reserve : ℕ
  pub tokens_used : ℕ
  pub reserved : ℕ
  pub deadline : ℕ

pub data Stage : Type 0 where
  verification_stage other_stage : Stage

-- `protected`: only verification draws on the reserve.
abbrev pub protected : Tracker → Stage → ℕ
protected t verification_stage = 0
protected t other_stage = t.final_stage_token_reserve

-- One pass of the loop: an exception, a reservation, or a wait for other calls.
pub data Attempt : Type 0 where
  exhausted : Attempt
  granted : ℕ → Tracker → Attempt
  waits : Attempt

-- `minimum_tokens or tokens`.
abbrev pub floor : Option ℕ → ℕ → ℕ
floor none tokens = tokens
floor (some minimum) tokens = if minimum == 0 then tokens else minimum

-- `min(tokens, available) if minimum_tokens is not None else tokens`. Where `available` is below 0,
-- the truncated difference is 0 and the pass ends in `exhausted` as in the source.
abbrev pub reservation : Tracker → Stage → ℕ → Option ℕ → ℕ
reservation t stage tokens none = tokens
reservation t stage tokens (some minimum) =
    min tokens (t.token_ceiling - (protected t stage + t.tokens_used))

-- `reservation > available` and the like are written without the subtraction, so that the comparison
-- is the one on integers.
unfoldable pub attempt : Tracker → ℕ → Stage → ℕ → Option ℕ → Attempt
attempt t now stage tokens minimum =
    let n = reservation t stage tokens minimum in
    let taken = protected t stage + t.tokens_used in
    if leb t.deadline now || (ltb t.token_ceiling (taken + n) || ltb n (floor minimum tokens))
    then exhausted
    else if leb (taken + (t.reserved + n)) t.token_ceiling
    then granted n (record t { reserved = t.reserved + n })
    else waits

-- What a waiting call meets: it is woken, at a time and in the state that other calls have left, or
-- `wait_for` times out.
pub data Wake : Type 0 where
  timeout : Wake
  woken : ℕ → Tracker → Wake

-- A pass that neither grants nor raises is followed by the rest of the loop.
abbrev pub or_again : Attempt → Attempt → Attempt
or_again exhausted again = exhausted
or_again (granted n t) again = granted n t
or_again waits again = again

-- The loop of `reserve`, over its wake-ups; `waits` if the last pass still waits.
unfoldable pub reserve : Stage → ℕ → Option ℕ → List Wake → Attempt
reserve stage tokens minimum [] = waits
reserve stage tokens minimum (timeout ∷ wakes) = exhausted
reserve stage tokens minimum (woken now t ∷ wakes) =
    let again = reserve stage tokens minimum wakes in
    or_again (attempt t now stage tokens minimum) again

unfoldable pub settle : Tracker → ℕ → ℕ → Tracker
settle t reserved used = record t {
  reserved = t.reserved - reserved;
  tokens_used = t.tokens_used + used;
}
