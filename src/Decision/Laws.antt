-- ===== src/Decision/Laws.antt =====
-- What the decision promises (reviewer/decision/engine.py), and how it reads the findings that the
-- policy (reviewer/findings/policy.py) has normalised.
use code_reviewer.Prelude.{String, ◌≡◌, ◌↔◌, Bool, true, false, not, ◌&&◌, List, arith, any}
use code_reviewer.Findings.Models.{
  required, Finding, is_verified, is_closed, is_low, evidence_invalid, ◌is◌,
}
use code_reviewer.Findings.Policy.{base, normalize, is_hidden}
use code_reviewer.Findings.Policy.Laws.{final_severity-required, final_severity-not_blocker}
use code_reviewer.Decision.{
  Decision, request_changes, approve, Outcome, StaticAnalysisResult, fails_required, blocks, decide,
  Enforcement, gating, status, failed_status,
}

-- decide approves exactly if the review is complete and not partial, no required check failed and
-- no finding blocks.
pub decide-approve_iff :
    (review : Outcome) (findings : List Finding) (results : List StaticAnalysisResult)
    → (decide review findings results ≡ approve) ↔ (
        (review.partial ≡ false)
        × (review.complete ≡ true)
        × (any fails_required results ≡ false)
        × (any blocks findings ≡ false))
unfolding decide
decide-approve_iff review findings results = (λ h. ground arith, λ h. ground arith)

-- A commit status fails exactly in gating mode, on a run that did not fail itself, whose decision
-- is to request changes.
pub status-failed_iff :
    (d : Decision) (mode : Enforcement) (failed_run : Bool)
    → (status d mode failed_run ≡ failed_status)
      ↔ ((d ≡ request_changes) × (mode ≡ gating) × (failed_run ≡ false))
unfolding status
status-failed_iff d mode failed_run = (λ h. ground arith, λ h. ground arith)

-- After normalising, a finding blocks exactly if it was open, is not hidden, starts from REQUIRED,
-- is confirmed, introduced by the change, not of low confidence and has valid evidence.
pub blocks-normalize :
    (f : Finding) (touched static_categories : List String)
    → blocks (normalize f touched static_categories) ≡ (
        not (is_closed f.status)
        && (not (is_hidden f touched static_categories)
            && ((base f.category is required)
                && (is_verified f
                    && (f.anchor.introduced_by_this_change
                        && (not (is_low f.confidence) && not (evidence_invalid f.validation)))))))
unfolding normalize
blocks-normalize f touched static_categories =
    ground (arith, final_severity-required f, final_severity-not_blocker f)
