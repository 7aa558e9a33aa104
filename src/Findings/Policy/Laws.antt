-- ===== src/Findings/Policy/Laws.antt =====
-- What a normalised finding satisfies (reviewer/findings/policy.py).
use code_reviewer.Prelude.{String, ◌≡◌, refl, ◌∙◌, Bool, true, false, not, ◌&&◌, ◌||◌, List, arith}
use code_reviewer.Findings.Models.{
  Severity, blocker, required, Finding, is_verified, is_low, evidence_invalid, ◌is◌,
}
use code_reviewer.Findings.Policy.{
  base, needs_verification, is_doubted, lowered, capped, final_severity, is_hidden, normalize,
}

-- The whole table of the two caps, for the severity REQUIRED.
capped-lowered_required :
    (s : Severity) (doubted introduced : Bool)
    → (capped (lowered s doubted) introduced is required)
      ≡ ((s is required) && (not doubted && introduced))
capped-lowered_required s doubted introduced = ground arith

pub final_severity-not_blocker : (f : Finding) → (final_severity f is blocker) ≡ false
unfolding final_severity
final_severity-not_blocker f = ground arith

-- A category that starts at REQUIRED wants verification.
base-needs_verification :
    (f : Finding) → (base f.category is required) ≡ true → needs_verification f ≡ true
unfolding needs_verification
base-needs_verification f h = ground arith

-- When the final severity is REQUIRED.
pub final_severity-required :
    (f : Finding)
    → (final_severity f is required) ≡ (
        (base f.category is required)
        && (is_verified f
            && (f.anchor.introduced_by_this_change
                && (not (is_low f.confidence) && not (evidence_invalid f.validation)))))
unfolding final_severity is_doubted
final_severity-required f =
    capped-lowered_required (base f.category) (is_doubted f) f.anchor.introduced_by_this_change
    ∙ conditions (base f.category is required) (needs_verification f) (is_verified f)
        f.anchor.introduced_by_this_change (is_low f.confidence) (evidence_invalid f.validation)
        (base-needs_verification f)
  where
    conditions :
        (b n v i l e : Bool)
        → (b ≡ true → n ≡ true)
        → (b && (not ((n && not v) || l || e) && i)) ≡ (b && (v && (i && (not l && not e))))
    conditions true true v i l e h = ground arith
    conditions true false v i l e h = cc (h refl)
    conditions false n v i l e h = refl

-- Normalising a finding again, with the same arguments, changes nothing.
pub normalize_idem :
    (f : Finding) (touched static_categories : List String)
    → normalize (normalize f touched static_categories) touched static_categories
      ≡ normalize f touched static_categories
unfolding normalize is_hidden final_severity is_doubted needs_verification
normalize_idem f touched static_categories = ground arith
