-- ===== src/Reasons.antt =====
-- Why a review ended as it did (reviewer/orchestrator/reasons.py). Codes and messages are texts.
pub mod Laws
use code_reviewer.Prelude.{
  ℕ, zero, suc, String, Bool, true, false, not, ◌&&◌, ◌||◌, Option, none, some, List, [], ◌∷◌, ◌++◌,
  ◌==◌, if◌then◌else◌, length, any, select_if,
}
use code_reviewer.Prelude.Text.{Text, codes, text_eq}
use code_reviewer.Findings.Pages.{starts_with}
use code_reviewer.States.{
  superseded, cancelled, failed_internal, failed_context, published, ReviewState,
}
use code_reviewer.Context.Diff.{digits}

pub record Reason : Type 0 where
  pub code : Text
  pub partial : Bool
  pub message : Text

abbrev pub Table : Type 0
Table = List (Text × Text)

abbrev entry : String → String → Text × Text
entry code message = (codes code, codes message)

-- `PARTIAL`.
abbrev pub partial_codes : Table
partial_codes =
    entry "budget_exhausted" "The token budget ran out before every unit was examined"
    ∷ entry "prompt_requirements_truncated"
        "Requirements were too long for the prompt and were truncated"
    ∷ entry "unverified_scope_claims"
        "Some findings that reach beyond the changed code could not be verified"
    ∷ entry "gateway_unconfigured" "No model gateway is configured, so no AI analysis ran"
    ∷ []

-- `DEGRADED`.
abbrev pub degraded_codes : Table
degraded_codes =
    entry "static_unavailable" "A static analyzer errored or was skipped"
    ∷ entry "build_unavailable" "The sandboxed build could not run"
    ∷ entry "build_timeout" "The sandboxed build timed out"
    ∷ entry "build_agent_unavailable" "The build agent failed; only the baseline build ran"
    ∷ entry "jira_unavailable" "Jira could not be reached, so requirements are missing"
    ∷ entry "docs_unavailable" "Linked Confluence pages could not be read"
    ∷ entry "docs_truncated" "Linked pages were cut to fit the document budget"
    ∷ entry "requirements_condensed" "Requirements were condensed to fit the prompt"
    ∷ entry "unlinked" "No Jira story is linked to this change"
    ∷ entry "context_plan_unavailable"
        "The context planner failed; units ran without planned context"
    ∷ entry "severity_triage_unavailable"
        "Severity triage was unavailable; severities are as proposed"
    ∷ entry "scope_unavailable" "Code outside the change could not be searched"
    ∷ []

unfoldable pub message_of : Table → Text → Option Text
message_of [] code = none
message_of ((key, message) ∷ table) code =
    let rest = message_of table code in if text_eq key code then some message else rest

-- `text.replace("_", " ")`.
unfoldable pub spaced : Text → Text
spaced [] = []
spaced (c ∷ cs) = (if c == 95 then 32 else c) ∷ spaced cs

-- `text.split(":", 1)[1]`, of a text with a colon.
unfoldable pub after_colon : Text → Text
after_colon [] = []
after_colon (c ∷ cs) = let rest = after_colon cs in if c == 58 then cs else rest

abbrev pub reason : Text → Bool → Text → Reason
reason code partial message = record { code = code; partial = partial; message = message }

-- `degradation`, for a code that names no stage.
abbrev pub listed : Text → Option Text → Option Text → Reason
listed code (some message) _ = reason code true message
listed code none (some message) = reason code false message
listed code none none = reason code false (spaced code)

abbrev pub is_excluded : Text → Bool
is_excluded code = starts_with (codes "excluded:") code

unfoldable pub degradation : Text → Option Reason
unfolding spaced after_colon message_of
degradation code =
    let stage = spaced (after_colon code) in
    if text_eq code (codes "partial") || is_excluded code
    then none
    else if starts_with (codes "failed_stage:") code
    then some (reason code true (codes "The " ++ (stage ++ codes " stage failed")))
    else if starts_with (codes "partial:") code
    then some
        (reason code true (codes "The " ++ (stage ++ codes " stage did not cover every unit")))
    else some (listed code (message_of partial_codes code) (message_of degraded_codes code))

-- The fields of a review that `reasons` reads.
pub record Ended : Type 0 where
  pub state : ReviewState
  pub error : Option Text
  pub partial : Bool

abbrev pub of_state : ReviewState → List Reason
of_state superseded =
    reason (codes "superseded") false (codes "A newer review of this change replaced this one") ∷ []
of_state cancelled =
    reason (codes "cancelled") false (codes "The merge request was closed, merged or made a draft")
    ∷ []
of_state failed_internal =
    reason (codes "failed") false (codes "The review failed; no reason was recorded") ∷ []
of_state failed_context =
    reason (codes "failed") false (codes "The review failed; no reason was recorded") ∷ []
of_state _ = []

-- The terminal reason; an empty error counts as none.
abbrev pub terminal_reason : Option Text → ReviewState → List Reason
terminal_reason none state = of_state state
terminal_reason (some []) state = of_state state
terminal_reason (some (c ∷ cs)) state = reason (codes "error") false (c ∷ cs) ∷ []

abbrev pub has_code : Text → Reason → Bool
has_code code r = text_eq r.code code

-- `if item and item["code"] not in seen`; `seen` holds the codes of the items so far.
abbrev pub add_reason : Option Reason → List Reason → List Reason
add_reason none items = items
add_reason (some r) items = if any (has_code r.code) items then items else items ++ (r ∷ [])

unfoldable pub add_degradations : List Text → List Reason → List Reason
unfolding degradation
add_degradations [] items = items
add_degradations (code ∷ ds) items = add_degradations ds (add_reason (degradation code) items)

-- The reason of the files that were excluded, where there are some.
abbrev pub excluded_reason : ℕ → List Reason
unfolding digits
excluded_reason zero = []
excluded_reason (suc n) =
    reason (codes "excluded") false
      (digits (suc n) ++ codes " changed file(s) were excluded from review")
    ∷ []

-- The loop over the degradations and the exclusions.
abbrev pub degradation_reasons : List Text → List Reason
unfolding add_degradations excluded_reason
degradation_reasons ds =
    add_degradations ds [] ++ excluded_reason (length (select_if is_excluded ds))

abbrev pub is_published : ReviewState → Bool
is_published published = true
is_published _ = false

-- The reason of a partial review for which nothing is recorded.
abbrev pub unexplained : Bool → List Reason
unexplained true =
    reason (codes "partial") true (
      codes
        "Coverage was incomplete; this installation's milestone or configuration limits the analysis")
    ∷ []
unexplained false = []

unfoldable pub reasons : Ended → List Text → List Reason
unfolding degradation_reasons
reasons e ds =
    let found = terminal_reason e.error e.state ++ degradation_reasons ds in
    found ++ unexplained (e.partial && (is_published e.state && not (any (λ r. r.partial) found)))
