-- ===== src/Orchestrator/Verification.antt =====
-- Independent verification (reviewer/orchestrator/verification.py, and what `verify` of
-- reviewer/agents/verification.py writes). The scan of the cited files and the verifier's answer are
-- parameters; findings are changed in place, so each one's change is a function of
-- it alone.
use code_reviewer.Prelude.{
  String, Bool, true, false, not, ◌&&◌, ◌||◌, Option, none, some, List, [], ◌∷◌, ◌++◌,
  if◌then◌else◌,
}
use code_reviewer.Prelude.Text.{str_mem}
use code_reviewer.Findings.Models.{
  Finding, VerificationResult, Verdict, confirmed, rejected, uncertain, evidence_invalid, is_local,
  is_confirmed, Status, discarded, downgraded, verified,
}
use code_reviewer.Findings.Policy.{needs_verification}

-- `BudgetExhausted` or `TimeoutError`, and any other exception.
pub data Failure : Type 0 where
  out_of_budget other : Failure

-- The verifier's result, with whether the citations and the scope were supplied completely.
pub data Verdicted : Type 0 where
  ruled : VerificationResult → Bool → Bool → Verdicted
  raised : Failure → Verdicted

-- The scan of a finding's files, and the verifier's answer.
pub record Verifier : Type 0 where
  pub scan : Finding → Option Failure
  pub verify : Finding → Verdicted

abbrev pub unavailable_result : VerificationResult
unavailable_result = record {
  counterargument = "Verification unavailable";
  reasoning = "Cannot confirm within budget";
  verdict = uncertain;
}

abbrev pub exhausts : Failure → Bool
exhausts out_of_budget = true
exhausts other = false

-- `unavailable`: the finding, and whether the degradation is to be recorded.
abbrev pub unavailable : Failure → Finding → Finding × Bool
unavailable e f = (record f { verification = some unavailable_result }, exhausts e)

abbrev pub incomplete_result : VerificationResult
incomplete_result = record {
  counterargument = "The required source scope was not supplied completely";
  reasoning = "An incomplete excerpt cannot establish absence";
  verdict = uncertain;
}

-- An incomplete excerpt confirms nothing.
abbrev pub admitted : Finding → VerificationResult → Bool → Bool → VerificationResult
admitted f v citations_complete scope_complete =
    if (not citations_complete || not (is_local f.evidence_scope) && not scope_complete)
      && is_confirmed v.verdict
    then incomplete_result
    else v

abbrev pub status_of : Verdict → Status
status_of rejected = discarded
status_of uncertain = downgraded
status_of confirmed = verified

-- What `verify` writes into the finding.
abbrev pub judge : Finding → VerificationResult → Finding
judge f v = record f { verification = some v; status = status_of v.verdict }

-- `one`.
abbrev pub one : Finding → Verdicted → Finding × Bool
one f (ruled v citations_complete scope_complete) =
    (judge f (admitted f v citations_complete scope_complete), false)
one f (raised e) = unavailable e f

abbrev pub scanned : Verifier → Finding → Option Failure → Finding × Bool
scanned v f none = one f (v.verify f)
scanned v f (some e) = unavailable e f

-- A finding that is not to be verified.
abbrev pub is_left : Finding → Bool
is_left f = not (needs_verification f) || evidence_invalid f.validation

unfoldable pub verify_finding : Verifier → Finding → Finding × Bool
verify_finding v f = if is_left f then (f, false) else scanned v f (v.scan f)

-- `if "budget_exhausted" not in bundle.degradations: bundle.degradations.append(...)`.
abbrev pub note_exhausted : Bool → List String → List String
note_exhausted true degradations =
    if str_mem "budget_exhausted" degradations
    then degradations
    else degradations ++ ("budget_exhausted" ∷ [])
note_exhausted false degradations = degradations

-- `verify_findings` on those of the findings that pass the test.
unfoldable pub verify_where : Verifier → (Finding → Bool) → List Finding → List Finding
unfolding verify_finding
verify_where v p [] = []
verify_where v p (f ∷ fs) =
    let rest = verify_where v p fs in if p f then (verify_finding v f).0 ∷ rest else f ∷ rest

unfoldable pub degraded_where :
    Verifier → (Finding → Bool) → List Finding → List String → List String
unfolding verify_finding
degraded_where v p [] degradations = degradations
degraded_where v p (f ∷ fs) degradations =
    let noted = note_exhausted (verify_finding v f).1 degradations in
    let rest = degraded_where v p fs degradations in
    let rest_noted = degraded_where v p fs noted in if p f then rest_noted else rest
