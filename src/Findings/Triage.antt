-- ===== src/Findings/Triage.antt =====
-- Severity triage by a cheap model (reviewer/agents/severity_triage.py): which findings it sees and
-- what code lets a judgement change.
pub mod Laws
use code_reviewer.Prelude.{
  ℕ, ◌+◌, String, Bool, false, not, ◌&&◌, ◌||◌, Option, none, some, List, [], ◌∷◌, map, ltb, leb,
  ◌==◌, if◌then◌else◌, length, any, select_if,
}
use code_reviewer.Prelude.Text.{Text, codes, text_eq}
use code_reviewer.Findings.Models.{
  Severity, suggestion, required, order, Finding, ImpactLevel, is_verified, is_closed, final_in,
}
use code_reviewer.Decision.{Enforcement, is_gating, severity_blocks}

-- `Judgement.severity`: `keep` or a severity.
pub data Proposal : Type 0 where
  keep : Proposal
  lower_to : Severity → Proposal

-- `f{start + i + 1}` is the position of the finding among the candidates.
pub record Judgement : Type 0 where
  pub finding : ℕ
  pub severity : Proposal
  pub impact_level : Option ImpactLevel
  pub reason : String

-- `f.stage in STAGES`.
abbrev pub in_stages : Text → Bool
in_stages s = text_eq s (codes "defect_review") || text_eq s (codes "build_agent")

-- The comprehension's condition in `candidates`.
abbrev pub is_candidate : Finding → Bool
is_candidate f =
    in_stages f.stage
    && (not (is_closed f.status) && final_in f.severity_final (required ∷ suggestion ∷ []))

unfoldable pub candidates : List Finding → List Finding
candidates findings = select_if is_candidate findings

unfoldable pub gates : Finding → Enforcement → Bool
gates f enforcement = is_gating enforcement && (is_verified f && severity_blocks f)

abbrev proposed_of : Severity → Proposal → Severity
proposed_of current keep = current
proposed_of current (lower_to s) = s

abbrev first_level : Option ImpactLevel → Option ImpactLevel → Option ImpactLevel
first_level none judged = judged
first_level (some level) judged = some level

-- `apply` at a finding whose severity is known; a candidate's always is.
apply_at : Severity → Finding → Judgement → Enforcement → Finding
unfolding gates
apply_at current f judgement enforcement =
    let proposed = proposed_of current judgement.severity in
    let applied = ltb (order current) (order proposed) && not (gates f enforcement) in
    record f {
      triage = some (record {
        from_severity = current;
        to_severity = if applied then proposed else current;
        proposed_severity = proposed;
        reason = judgement.reason;
        applied = applied;
      });
      severity_final = some (if applied then proposed else current);
      impact_level = first_level f.impact_level judgement.impact_level;
    }

abbrev apply_opt : Option Severity → Finding → Judgement → Enforcement → Option Finding
unfolding apply_at
apply_opt none f judgement enforcement = none
apply_opt (some current) f judgement enforcement = some (apply_at current f judgement enforcement)

-- `apply`; `none` is the error of `ORDER.index(None)`.
unfoldable pub apply : Finding → Judgement → Enforcement → Option Finding
unfolding apply_at
apply f judgement enforcement = apply_opt f.severity_final f judgement enforcement

-- A finding and its key `f{n}` in `batch`, for the findings that triage has picked.
abbrev pub Marked : Type 0
Marked = List (Option ℕ × Finding)

-- The keys in the order of `pending`, from the number given.
unfoldable pub mark : ℕ → List Finding → Marked
mark n [] = []
mark n (f ∷ fs) =
    let rest = mark (n + 1) fs in
    let rest_same = mark n fs in
    if is_candidate f then (some n, f) ∷ rest else (none, f) ∷ rest_same

abbrev pub has_key : ℕ → Option ℕ → Bool
has_key k none = false
has_key k (some n) = n == k

-- `batch.get(key)` in one batch: the key must lie in the batch's range of numbers.
abbrev in_batch : ℕ → ℕ → Bool
in_batch start k = ltb start k && leb k (start + 20)

-- `apply` at the finding with that key; a candidate has a severity, so the error cannot arise.
abbrev pub or_same : Finding → Option Finding → Finding
or_same f none = f
or_same f (some g) = g

unfoldable pub apply_key : Enforcement → Judgement → Marked → Marked
unfolding apply
apply_key enforcement judgement [] = []
apply_key enforcement judgement ((k, f) ∷ rest) =
    (k, if has_key judgement.finding k then or_same f (apply f judgement enforcement) else f)
    ∷ apply_key enforcement judgement rest

abbrev seen_before : ℕ → List ℕ → Bool
seen_before k [] = false
seen_before k (j ∷ seen) = k == j || seen_before k seen

-- The loop over `result.judgements`: the first judgement of each finding of the batch is applied.
unfoldable pub judge_batch : Enforcement → ℕ → List ℕ → List Judgement → Marked → Marked
unfolding apply_key
judge_batch enforcement start seen [] marked = marked
judge_batch enforcement start seen (j ∷ js) marked =
    let skip = judge_batch enforcement start seen js marked in
    let used =
      judge_batch enforcement start (j.finding ∷ seen) js (apply_key enforcement j marked) in
    if not (in_batch start j.finding && any (λ m. has_key j.finding m.0) marked)
      || seen_before j.finding seen
    then skip
    else used

-- The loop over the batches. The gateway's answer to each is an argument; `none` is an exception,
-- after which the judgements already applied stand. The flag is the degradation it leaves.
unfoldable pub triage_batches :
    Enforcement → ℕ → ℕ → List (Option (List Judgement)) → Marked → Marked × Bool
unfolding judge_batch
triage_batches enforcement start pending [] marked = (marked, false)
triage_batches enforcement start pending (none ∷ answers) marked = (marked, ltb start pending)
triage_batches enforcement start pending (some js ∷ answers) marked =
    let next =
      triage_batches enforcement (start + 20) pending answers
        (judge_batch enforcement start [] js marked) in
    if ltb start pending then next else (marked, false)

-- `SeverityTriageAgent.triage`, where triage is configured.
unfoldable pub triage :
    Enforcement → List (Option (List Judgement)) → List Finding → List Finding × Bool
unfolding candidates mark triage_batches
triage enforcement answers findings =
    let (marked, degraded) =
      triage_batches enforcement 0 (length (candidates findings)) answers (mark 1 findings) in
    (map (λ m. m.1) marked, degraded)
