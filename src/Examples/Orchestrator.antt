-- ===== src/Examples/Orchestrator.antt =====
-- Examples for the token budget, the early per-file work and the reasons of a review's end
-- (reviewer/orchestrator).
use code_reviewer.Prelude.{String, ◌≡◌, refl, true, false, none, some, List, [], ◌∷◌, arith}
use code_reviewer.Prelude.Text.{codes}
use code_reviewer.States.{published}
use code_reviewer.Orchestrator.Budget.Laws.{
  reserve-Fits, attempt-Fits, Reach-Balanced, GrantedInSomePass, Fits, Books, Balanced,
  reserves_tokens, settles, here, next,
}
use code_reviewer.Orchestrator.Streaming.Laws.{finish-batch, batch_files, SameInputs, run, Call}
use code_reviewer.Reasons.{reason, reasons, degradation, Reason, Ended}
use code_reviewer.Orchestrator.Streaming.{Dict, by_file}
use code_reviewer.Orchestrator.Streaming.{
  start_ready, new_stream, may_start, begin, planned, finished, lookup, finish, Work, FileStream,
}
use code_reviewer.Orchestrator.Budget.{
  woken, waits, granted, settle, other_stage, reserve, attempt, Tracker,
}
use code_reviewer.Orchestrator.Streaming.Laws.{plans, finishes}
use code_reviewer.Findings.Pages.{starts_with}

-- What the definitions below compute through.
program : Unit {0}
unfolding start_ready starts_with attempt reserve settle finish finished may_start lookup planned
    reasons degradation
program = tt

abbrev tracker : Tracker
tracker = record {
  token_ceiling = 100;
  final_stage_token_reserve = 20;
  tokens_used = 30;
  reserved = 0;
  deadline = 60;
}

-- The protected allowance leaves 50 tokens to a call that is no verification.
abbrev reserving : Tracker
reserving = record tracker { reserved = 50 }

reserve_50 : attempt tracker 5 other_stage 80 (some 10) ≡ granted 50 reserving
unfolding program
reserve_50 = refl

attempt-Fits_example : Fits tracker 5 other_stage 80 (some 10) 50 reserving
attempt-Fits_example = attempt-Fits tracker 5 other_stage 80 (some 10) 50 reserving reserve_50

waiting : attempt reserving 5 other_stage 40 none ≡ waits
unfolding program
waiting = refl

later : reserve other_stage 80 (some 10) (woken 5 tracker ∷ []) ≡ granted 50 reserving
unfolding program
later = refl

reserve-Fits_example :
    GrantedInSomePass other_stage 80 (some 10) (woken 5 tracker ∷ []) 50 reserving
reserve-Fits_example =
    reserve-Fits other_stage 80 (some 10) (woken 5 tracker ∷ []) 50 reserving later

abbrev opened : Books
opened = record { tracker = tracker; held = []; overdraft = 0 }

abbrev lent : Books
lent = record { tracker = reserving; held = 50 ∷ []; overdraft = 0 }

-- The call used 60 tokens of its 50.
abbrev closed : Books
closed = record { tracker = settle reserving 50 60; held = []; overdraft = 10 }

Reach-Balanced_example : Balanced 100 closed
unfolding program
Reach-Balanced_example = Reach-Balanced tracker {b = closed} refl (omega arith) (
    next (next here (reserves_tokens opened 5 other_stage 80 (some 10) 50 reserving reserve_50))
      (settles lent [] [] 50 60 refl))

-- Proposals are keys; a file's work keeps their order.
abbrev work : Work String String
work = record { clean = λ p. p; file = λ p. "a.py"; key = λ p. p; prepare = λ ps. (ps, []) }

abbrev calls : List (Call work)
calls = plans (("a.py" ∷ []) ∷ []) ∷ finishes ("a.py" ∷ []) ("p" ∷ []) ∷ []

finish-batch_example :
    (inputs : Dict (List String)) × SameInputs work inputs (by_file work ("p" ∷ []))
    × ((finish work ("p" ∷ []) (run work calls (new_stream work))).0 ≡ batch_files work inputs)
finish-batch_example = finish-batch work calls ("p" ∷ [])

abbrev expected : FileStream work
expected = planned work (("a.py" ∷ []) ∷ []) (new_stream work)

fresh : lookup "a.py" expected.started ≡ none
unfolding program
fresh = refl

started :
    lookup "a.py" (finished work ("a.py" ∷ []) ("p" ∷ []) expected).started
    ≡ some (begin work ("p" ∷ []))
unfolding program
started = refl

abbrev partial_end : Ended
partial_end = record { state = published; error = none; partial = true }

abbrev unlinked : Reason
unlinked = reason (codes "unlinked") false (codes "No Jira story is linked to this change")

unlinked_reason : degradation (codes "unlinked") ≡ some unlinked
unfolding program
unlinked_reason = refl
