-- ===== src/Findings/Models.antt =====
-- The schema of findings (reviewer/findings/models.py). `Finding` holds the fields of its base class
-- `ProposedFinding` too. Line numbers are natural: a negative one fails every range test as 0 does.
use code_reviewer.Prelude.{ℕ, String, Bool, true, false, not, Option, none, some, List, ◌==◌, any}
use code_reviewer.Prelude.Text.{Text}

pub data Severity : Type 0 where
  blocker required suggestion nit question fyi praise : Severity

-- The position of a severity in the enumeration: `ORDER` of dedup.py and severity_triage.py.
abbrev pub order : Severity → ℕ
order blocker = 0
order required = 1
order suggestion = 2
order nit = 3
order question = 4
order fyi = 5
order praise = 6

infix 50 ◌is◌
abbrev pub ◌is◌ : Severity → Severity → Bool
a is b = order a == order b

-- `s in {...}`.
abbrev pub one_of : Severity → List Severity → Bool
one_of s xs = any (λ t. t is s) xs

pub data ImpactLevel : Type 0 where
  critical high_impact medium_impact low_impact : ImpactLevel

pub data Confidence : Type 0 where
  high medium low : Confidence

pub data EvidenceScope : Type 0 where
  local symbol_scope file_scope : EvidenceScope

pub data Status : Type 0 where
  proposed discarded downgraded verified suppressed published resolved : Status

pub data Verdict : Type 0 where
  confirmed rejected uncertain : Verdict

pub record Anchor : Type 0 where
  pub file : String
  pub line_start : ℕ
  pub line_end : ℕ
  pub symbol : Option String
  pub commit_sha : String
  pub context_hash : String
  pub in_diff : Bool
  pub introduced_by_this_change : Bool

pub record Evidence : Type 0 where
  pub file : String
  pub line_start : ℕ
  pub line_end : ℕ
  pub note : String

pub record ValidationResult : Type 0 where
  pub valid : Bool
  pub reasons : List String
  pub evidence_valid : Bool

pub record VerificationResult : Type 0 where
  pub counterargument : String
  pub reasoning : String
  pub verdict : Verdict

pub record SeverityTriage : Type 0 where
  pub from_severity : Severity
  pub to_severity : Severity
  pub proposed_severity : Severity
  pub reason : String
  pub applied : Bool

pub record Finding : Type 0 where
  pub anchor : Anchor
  pub category : String
  pub severity_proposed : Severity
  pub claim : Text
  pub reason : String
  pub impact : String
  pub impact_level : Option ImpactLevel
  pub failure_scenario : Option String
  pub evidence_scope : EvidenceScope
  pub evidence : List Evidence
  pub suggested_direction : String
  pub confidence : Confidence
  pub id : String
  pub fingerprint : String
  pub stage : Text
  pub severity_final : Option Severity
  pub validation : Option ValidationResult
  pub verification : Option VerificationResult
  pub status : Status
  pub triage : Option SeverityTriage

abbrev pub is_confirmed : Verdict → Bool
is_confirmed confirmed = true
is_confirmed _ = false

abbrev pub verdict_confirmed : Option VerificationResult → Bool
verdict_confirmed none = false
verdict_confirmed (some v) = is_confirmed v.verdict

-- The property `Finding.verified`.
abbrev pub is_verified : Finding → Bool
is_verified f = verdict_confirmed f.verification

-- `status in {"discarded", "suppressed", "resolved"}`, the test that policy, selection, triage and
-- the decision share.
abbrev pub is_closed : Status → Bool
is_closed discarded = true
is_closed suppressed = true
is_closed resolved = true
is_closed _ = false

-- `f.severity_final in {...}` and `f.severity_final == s`: false at `None`.
abbrev pub final_in : Option Severity → List Severity → Bool
final_in none xs = false
final_in (some s) xs = one_of s xs

abbrev pub is_local : EvidenceScope → Bool
is_local local = true
is_local _ = false

abbrev pub is_low : Confidence → Bool
is_low low = true
is_low _ = false

-- `f.validation and not f.validation.evidence_valid`.
abbrev pub evidence_invalid : Option ValidationResult → Bool
evidence_invalid none = false
evidence_invalid (some v) = not v.evidence_valid
