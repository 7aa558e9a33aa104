-- ===== src/Findings/Policy.antt =====
-- The severity policy (reviewer/findings/policy.py).
pub mod Laws
use code_reviewer.Prelude.{String, Bool, not, ◌&&◌, ◌||◌, some, List, [], ◌∷◌, if◌then◌else◌}
use code_reviewer.Prelude.Text.{str_mem}
use code_reviewer.Findings.Models.{
  Severity, blocker, required, suggestion, nit, fyi, one_of, ◌is◌, Finding, suppressed, is_verified,
  is_closed, is_local, is_low, evidence_invalid,
}

-- `BASE.get(category, Severity.SUGGESTION)`.
unfoldable pub base : String → Severity
base c =
    if str_mem c ("security" ∷ "data_integrity" ∷ "prompt_injection" ∷ [])
    then blocker
    else if str_mem c ("correctness" ∷ "concurrency" ∷ "error_handling" ∷ "test_gap" ∷ [])
    then required
    else if str_mem c ("maintainability" ∷ "complexity" ∷ [])
    then suggestion
    else if str_mem c ("naming" ∷ "style" ∷ [])
    then nit
    else suggestion

unfoldable pub needs_verification : Finding → Bool
needs_verification f =
    not (is_local f.evidence_scope)
    || one_of (base f.category) (blocker ∷ required ∷ [])
    || one_of f.severity_proposed (blocker ∷ required ∷ [])

-- Whether the claim is not trusted: unverified where it must be, of low confidence, or with invalid
-- evidence.
unfoldable pub is_doubted : Finding → Bool
is_doubted f =
    (needs_verification f && not (is_verified f))
    || is_low f.confidence
    || evidence_invalid f.validation

-- A doubted claim is lowered to a suggestion.
abbrev pub lowered : Severity → Bool → Severity
lowered severity doubted =
    if doubted
    then if one_of severity (blocker ∷ required ∷ []) then suggestion else severity
    else severity

-- Pre-existing code is for information only, and a blocker is advisory.
abbrev pub capped : Severity → Bool → Severity
capped severity introduced =
    let reduced = if introduced then severity else fyi in
    if reduced is blocker then suggestion else reduced

unfoldable pub final_severity : Finding → Severity
final_severity f =
    capped (lowered (base f.category) (is_doubted f)) f.anchor.introduced_by_this_change

-- `f.category in static_categories or (not f.anchor.in_diff and f.anchor.file not in touched)`.
unfoldable pub is_hidden : Finding → List String → List String → Bool
is_hidden f touched static_categories =
    str_mem f.category static_categories
    || (not f.anchor.in_diff && not (str_mem f.anchor.file touched))

unfoldable pub normalize : Finding → List String → List String → Finding
normalize f touched static_categories =
    if is_closed f.status
    then f
    else if not (is_local f.evidence_scope) && not (is_verified f)
    then record f { status = suppressed; severity_final = some suggestion }
    else record f {
      status = if is_hidden f touched static_categories then suppressed else f.status;
      severity_final = some (final_severity f);
    }
