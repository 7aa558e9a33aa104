-- ===== src/Findings/Triage/Laws.antt =====
-- Laws of a judgement of the triage model (reviewer/agents/severity_triage.py), and of it and the
-- decision together (reviewer/decision/engine.py).
use code_reviewer.Prelude.{
  ℕ, ◌+◌, ◌≤◌, ◌≡◌, refl, ap, ◌∙◌, inl, inr, Bool, ◌||◌, Option, none, some, List, [], ◌∷◌, map,
  arith, Bool-cases, length, any,
}
use code_reviewer.Findings.Models.{Severity, Finding, order}
use code_reviewer.Findings.Triage.{
  Judgement, Marked, candidates, gates, apply, mark, has_key, or_same, apply_key, judge_batch,
  triage_batches, triage,
}
use code_reviewer.Decision.{Outcome, StaticAnalysisResult, blocks, decide, Enforcement, gating}

abbrev order_of : Option Severity → ℕ
order_of none = 0
order_of (some s) = order s

-- A judgement never raises a severity, and touches nothing that the decision reads but the severity.
pub apply_lowers :
    (f g : Finding) (j : Judgement) (e : Enforcement)
    → apply f j e ≡ some g
    → (order_of f.severity_final ≤ order_of g.severity_final)
      × (g.status ≡ f.status)
      × (g.verification ≡ f.verification)
      × (g.anchor ≡ f.anchor)
unfolding apply
apply_lowers f g j e h = ground arith

-- In gating mode a judgement leaves a finding as blocking as it was.
blocks-apply : (f g : Finding) (j : Judgement) → apply f j gating ≡ some g → blocks g ≡ blocks f
unfolding apply gates
blocks-apply f g j h = ground arith

abbrev any_blocks : Marked → Bool
any_blocks marked = any (λ m. blocks m.1) marked

blocks-or_same :
    (f : Finding) (o : Option Finding)
    → ((g : Finding) → o ≡ some g → blocks g ≡ blocks f)
    → blocks (or_same f o) ≡ blocks f
blocks-or_same f none h = refl
blocks-or_same f (some g) h = h g refl

blocks-apply_key :
    (j : Judgement) (marked : Marked) → any_blocks (apply_key gating j marked) ≡ any_blocks marked
unfolding apply_key
blocks-apply_key j [] = refl
blocks-apply_key j ((k, f) ∷ rest) = elim (Bool-cases (has_key j.finding k)) [
  | inl e ↦
      rw (e, blocks-or_same f (apply f j gating) (λ g. blocks-apply f g j), blocks-apply_key j rest)
  | inr e ↦ rw (e, blocks-apply_key j rest)
]

blocks-judge_batch :
    (start : ℕ) (seen : List ℕ) (js : List Judgement) (marked : Marked)
    → any_blocks (judge_batch gating start seen js marked) ≡ any_blocks marked
unfolding judge_batch
blocks-judge_batch start seen [] marked = refl
blocks-judge_batch start seen (j ∷ js) marked = ground (
  arith,
  blocks-apply_key j marked,
  blocks-judge_batch start seen js marked,
  blocks-judge_batch start (j.finding ∷ seen) js (apply_key gating j marked),
)

blocks-triage_batches :
    (start pending : ℕ) (answers : List (Option (List Judgement))) (marked : Marked)
    → any_blocks (triage_batches gating start pending answers marked).0 ≡ any_blocks marked
unfolding triage_batches
blocks-triage_batches start pending [] marked = refl
blocks-triage_batches start pending (none ∷ answers) marked = refl
blocks-triage_batches start pending (some js ∷ answers) marked = ground (
  arith,
  blocks-judge_batch start [] js marked,
  blocks-triage_batches (start + 20) pending answers (judge_batch gating start [] js marked),
)

blocks-mark : (n : ℕ) (fs : List Finding) → any_blocks (mark n fs) ≡ any blocks fs
unfolding mark
blocks-mark n [] = refl
blocks-mark n (f ∷ fs) = ground (arith, blocks-mark n fs, blocks-mark (n + 1) fs)

blocks-unmark : (marked : Marked) → any blocks (map (λ m. m.1) marked) ≡ any_blocks marked
blocks-unmark [] = refl
blocks-unmark ((k, f) ∷ rest) = ap (λ b. blocks f || b) (blocks-unmark rest)

-- In gating mode no answers of the triage model change the decision on a review.
pub decide-triage :
    (answers : List (Option (List Judgement))) (findings : List Finding) (review : Outcome)
    (results : List StaticAnalysisResult)
    → decide review (triage gating answers findings).0 results ≡ decide review findings results
unfolding triage decide
decide-triage answers findings review results =
    let (marked, degraded) =
      triage_batches gating 0 (length (candidates findings)) answers (mark 1 findings) in
    let same : any blocks (map (λ m. m.1) marked) ≡ any blocks findings =
      blocks-unmark marked
      ∙ blocks-triage_batches 0 (length (candidates findings)) answers (mark 1 findings)
      ∙ blocks-mark 1 findings in
    rw same
