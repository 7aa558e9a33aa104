-- ===== src/Decision.antt =====
-- The decision and the commit status (reviewer/decision/engine.py).
pub mod Laws
use code_reviewer.Prelude.{
  String, Bool, true, false, not, ◌&&◌, ◌||◌, List, [], ◌∷◌, if◌then◌else◌, any,
}
use code_reviewer.Findings.Models.{blocker, required, Finding, is_verified, is_closed, final_in}

pub data Decision : Type 0 where
  comment_only request_changes approve : Decision

-- `StaticAnalysisResult.status` (reviewer/context/models.py).
pub data CheckStatus : Type 0 where
  passed failed errored skipped : CheckStatus

pub record StaticAnalysisResult : Type 0 where
  pub name : String
  pub is_required : Bool
  pub status : CheckStatus

-- What `decide` reads of the review it is given.
pub record Outcome : Type 0 where
  pub partial : Bool
  pub complete : Bool

abbrev is_failed : CheckStatus → Bool
is_failed failed = true
is_failed _ = false

-- The condition on one static result.
abbrev pub fails_required : StaticAnalysisResult → Bool
fails_required r = r.is_required && is_failed r.status

-- The severity test of `decide`, which `gates` of severity_triage.py repeats.
abbrev pub severity_blocks : Finding → Bool
severity_blocks f =
    final_in f.severity_final (blocker ∷ [])
    || (final_in f.severity_final (required ∷ []) && f.anchor.introduced_by_this_change)

-- The condition on one finding.
abbrev pub blocks : Finding → Bool
blocks f = not (is_closed f.status) && (is_verified f && severity_blocks f)

unfoldable pub decide : Outcome → List Finding → List StaticAnalysisResult → Decision
decide review findings static_results =
    if review.partial || not review.complete
    then comment_only
    else if any fails_required static_results
    then request_changes
    else if any blocks findings
    then request_changes
    else approve

-- The project's `enforcement` mode.
pub data Enforcement : Type 0 where
  advisory gating : Enforcement

abbrev pub is_gating : Enforcement → Bool
is_gating gating = true
is_gating advisory = false

pub data CommitStatus : Type 0 where
  failed_status success_status : CommitStatus

abbrev requests_changes : Decision → Bool
requests_changes request_changes = true
requests_changes _ = false

unfoldable pub status : Decision → Enforcement → Bool → CommitStatus
status decision mode failed_run =
    if not failed_run && is_gating mode && requests_changes decision
    then failed_status
    else success_status
