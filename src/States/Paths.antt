-- ===== src/States/Paths.antt =====
-- Runs of the machine (reviewer/orchestrator/states.py) as chains of legal transitions.
use code_reviewer.Prelude.{ℕ, suc, ◌+◌, ◌≤◌, ◌≡◌, refl, true, false, not, arith}
use code_reviewer.States.{
  ReviewState, init, context_collection, static_analysis, defect_review, document_review,
  purpose_review, design_review, analysis_fan_out, system_context_review, evidence_validation,
  finding_verification, finalization, decision, published, terminated_early, failed_context,
  failed_internal, cancelled, superseded, is_terminal, check_transition, order_index,
}
use code_reviewer.States.Order.{rank, check_transition_forward}

-- `Run s n t`: `n` legal transitions lead from `s` to `t`.
pub data Run : ReviewState → ℕ → ReviewState → Type 0 where
  here : {s : ReviewState} → Run s 0 s
  step : {s t u : ReviewState} {n : ℕ} → check_transition s t ≡ true → Run t n u → Run s (suc n) u

rank-le : (s : ReviewState) → rank s ≤ 13
unfolding order_index
rank-le s = ground arith

Run-climbs : {s t : ReviewState} {n : ℕ} → Run s n t → n + rank s ≤ rank t
Run-climbs here = omega arith
Run-climbs (step {s = s} {t = t} h r) = omega (arith, check_transition_forward s t h, Run-climbs r)

-- A chain of legal transitions has at most 13 steps.
pub Run-bounded : {s t : ReviewState} {n : ℕ} → Run s n t → n ≤ 13
Run-bounded {t = t} r = omega (arith, Run-climbs r, rank-le t)

-- A terminal state has no transition out, to any state.
pub terminal_absorbs :
    (old new : ReviewState) → is_terminal old ≡ true → check_transition old new ≡ false
unfolding check_transition
terminal_absorbs old new h = ground arith

from_finalization : Run finalization 2 published
unfolding check_transition
from_finalization = step {t = decision} refl (step {t = published} refl here)

from_validation : Run evidence_validation 4 published
unfolding check_transition
from_validation =
    step {t = finding_verification} refl (step {t = finalization} refl from_finalization)

-- From every state that is not terminal some chain of legal transitions publishes the review.
pub reaches_published : (s : ReviewState) → is_terminal s ≡ false → (n : ℕ) × Run s n published
unfolding check_transition
reaches_published init h = (3, step {t = finalization} refl from_finalization)
reaches_published context_collection h = (3, step {t = finalization} refl from_finalization)
reaches_published static_analysis h = (3, step {t = finalization} refl from_finalization)
reaches_published defect_review h = (5, step {t = evidence_validation} refl from_validation)
reaches_published document_review h = (5, step {t = evidence_validation} refl from_validation)
reaches_published purpose_review h = (3, step {t = finalization} refl from_finalization)
reaches_published design_review h = (3, step {t = finalization} refl from_finalization)
reaches_published analysis_fan_out h = (5, step {t = evidence_validation} refl from_validation)
reaches_published system_context_review h = (5, step {t = evidence_validation} refl from_validation)
reaches_published evidence_validation h = (4, from_validation)
reaches_published finding_verification h = (3, step {t = finalization} refl from_finalization)
reaches_published finalization h = (2, from_finalization)
reaches_published decision h = (1, step {t = published} refl here)
reaches_published published h = cc
reaches_published terminated_early h = cc
reaches_published failed_context h = cc
reaches_published failed_internal h = cc
reaches_published cancelled h = cc
reaches_published superseded h = cc

-- No transition enters the state that the deep mode left behind.
pub never_terminated_early : (s : ReviewState) → check_transition s terminated_early ≡ false
unfolding check_transition
never_terminated_early s = ground arith

-- The two failure states, CANCELLED and SUPERSEDED may be entered from every state that is not
-- terminal, and from no other.
pub failure_edges_lem :
    (s : ReviewState)
    → (check_transition s failed_internal ≡ not (is_terminal s))
      × (check_transition s failed_context ≡ not (is_terminal s))
      × (check_transition s cancelled ≡ not (is_terminal s))
      × (check_transition s superseded ≡ not (is_terminal s))
unfolding check_transition
failure_edges_lem s = (ground arith, ground arith, ground arith, ground arith)
