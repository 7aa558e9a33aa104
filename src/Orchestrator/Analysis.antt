-- ===== src/Orchestrator/Analysis.antt =====
-- What a run makes of the findings of its files (`prepare`, `settle` and `established` in `run` of
-- reviewer/orchestrator/pipeline.py). The objects are told apart by their ids, which are fresh.
pub mod Effects
pub mod Laws
pub mod Whole
pub mod Rejected
use code_reviewer.Prelude.{
  ℕ, String, Bool, true, false, not, ◌&&◌, Option, none, some, List, [], ◌∷◌, ◌++◌, map, ltb, leb,
  if◌then◌else◌, length, any, select_if, take, drop,
}
use code_reviewer.Prelude.Text.{str_eq, str_mem}
use code_reviewer.Prelude.Sorting.{sort_by}
use code_reviewer.Findings.Models.{
  Finding, VerificationResult, Status, discarded, suppressed, confirmed, Confidence, high, medium,
  low, evidence_invalid, is_local, is_verified,
}
use code_reviewer.Findings.Policy.{needs_verification, normalize, is_hidden}
use code_reviewer.Findings.Dedup.{Unicode, deduplicate}
use code_reviewer.Orchestrator.Verification.{Verifier, verify_where}

-- The run: the milestone level, the changed paths, the categories of the static tools, the merge
-- distance, and `validate` with the worktree of the head.
pub record Run : Type 0 where
  pub level : ℕ
  pub touched : List String
  pub categories : List String
  pub merge_distance : ℕ
  pub unicode : Unicode
  pub validated : Finding → Finding
  pub verifier : Verifier

abbrev pub is_discarded : Status → Bool
is_discarded discarded = true
is_discarded _ = false

-- `unpublishable`, the test that `normalize` makes too.
abbrev pub unpublishable : Run → Finding → Bool
unpublishable r f = is_hidden f r.touched r.categories

-- `skipped`.
unfoldable pub skipped : Run → Finding → Bool → Option String
skipped r f beyond =
    if str_mem f.category r.categories
    then some "static_tool"
    else if not f.anchor.in_diff && not (str_mem f.anchor.file r.touched)
    then some "outside_change"
    else if beyond
    then some "existing_limit"
    else if evidence_invalid f.validation
    then some "evidence_invalid"
    else if not (needs_verification f)
    then some "not_required"
    else none

-- `verify`, below level 6 nothing.
abbrev pub verify : Run → (Finding → Bool) → List Finding → List Finding
verify r p fs = if leb 6 r.level then verify_where r.verifier p fs else fs

abbrev pub is_introduced : Run → Finding → Bool
is_introduced r f = not (unpublishable r f) && f.anchor.introduced_by_this_change

-- `prepare`: (values, discarded).
unfoldable pub prepare : Run → List Finding → List Finding × List Finding
unfolding verify_where
prepare r proposals =
    let checked = map r.validated proposals in
    let values =
      deduplicate r.unicode r.merge_distance
        (select_if (λ f. not (is_discarded f.status)) checked) in
    (verify r (is_introduced r) values, select_if (λ f. is_discarded f.status) checked)

abbrev pub build_verdict : VerificationResult
build_verdict = record {
  counterargument = "";
  reasoning = "Reported by the sandboxed build's own diagnostic output; no model judged it.";
  verdict = confirmed;
}

abbrev pub confirm : Finding → Finding
confirm f = record f { verification = some build_verdict }

-- `established`: (values, discarded).
unfoldable pub established : Run → List Finding → List Finding × List Finding
established r proposals =
    let checked = map r.validated proposals in
    let values = map confirm (select_if (λ f. not (is_discarded f.status)) checked) in
    (deduplicate r.unicode r.merge_distance values, select_if (λ f. is_discarded f.status) checked)

abbrev confidence_order : Confidence → ℕ
confidence_order high = 0
confidence_order medium = 1
confidence_order low = 2

-- The key of the sort; `-len(f.evidence)` is compared the other way round.
abbrev pub not_after : Finding → Finding → Bool
not_after f g =
    let a = confidence_order f.confidence in
    let b = confidence_order g.confidence in
    if ltb a b then true else if ltb b a then false else leb (length g.evidence) (length f.evidence)

abbrev pub is_existing : Run → Finding → Bool
is_existing r f = not (unpublishable r f) && not f.anchor.introduced_by_this_change

-- `existing`.
unfoldable pub existing : Run → List Finding → List Finding
existing r values = sort_by not_after (select_if (is_existing r) values)

abbrev pub mem_ids : List Finding → Finding → Bool
mem_ids fs f = any (λ g. str_eq g.id f.id) fs

abbrev pub is_none {ℓ} : {A : Type ℓ} → Option A → Bool
is_none none = true
is_none (some a) = false

-- The pre-existing findings that are verified.
abbrev pub is_shown : List Finding → Finding → Bool
is_shown first f = mem_ids first f && is_none f.verification

-- The body of the loop, for a finding that is or is not beyond the limit.
abbrev pub settle_one : Run → Bool → Finding → Finding × Option String
settle_one r beyond f =
    let g = if beyond then record f { status = suppressed } else f in
    let reason = if is_none f.verification then skipped r g beyond else none in
    (normalize g r.touched r.categories, reason)

-- `settle`, with the reason why a finding has no verdict (`unverified_reason`).
unfoldable pub settle : Run → List Finding → List (Finding × Option String)
unfolding existing
settle r values =
    let order = existing r values in
    let judged = verify r (is_shown (take 2 order)) values in
    map (λ f. settle_one r (mem_ids (drop 2 order) f) f) judged

-- Whether the degradation "unverified_scope_claims" is recorded.
abbrev pub hides_scope_claim : Run → List Finding → Finding × Option String → Bool
hides_scope_claim r beyond s =
    not (is_local s.0.evidence_scope)
    && (not (is_verified s.0)
        && (is_suppressed s.0.status && (not (mem_ids beyond s.0) && not (unpublishable r s.0))))
  where
    is_suppressed : Status → Bool
    is_suppressed suppressed = true
    is_suppressed _ = false

unfoldable pub settle_degradations : Run → List Finding → List String → List String
unfolding existing settle
settle_degradations r values degradations =
    let beyond = drop 2 (existing r values) in
    if any (hides_scope_claim r beyond) (settle r values)
    then degradations ++ ("unverified_scope_claims" ∷ [])
    else degradations

abbrev pub gather {ℓ} : {A : Type ℓ} → List (List A) → List A
gather [] = []
gather (xs ∷ xss) = xs ++ gather xss

-- The fresh findings of the files, of the build's diagnostics and of its proposals, settled.
unfoldable pub analyse :
    Run → List (List Finding) → List Finding → List Finding → List (Finding × Option String)
unfolding settle prepare established
analyse r files diagnostics proposals = settle r (
    gather (map (λ fs. (prepare r fs).0) files)
    ++ ((established r diagnostics).0 ++ (prepare r proposals).0))
