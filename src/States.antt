-- ===== src/States.antt =====
-- The review state machine (reviewer/orchestrator/states.py): the states, the terminal ones, the
-- legal transitions as the module builds them at import, and the check that guards a write.
pub mod Order
pub mod Paths
use code_reviewer.Prelude.{
  ℕ, suc, Bool, Option, none, some, List, [], ◌∷◌, ◌++◌, any, ◌==◌, if◌then◌else◌,
}

-- `ReviewState`. A string that names no member raises in `ReviewState(new)` before any check, so the
-- model's states are the members alone.
pub data ReviewState : Type 0 where
  init context_collection static_analysis defect_review document_review : ReviewState
  purpose_review design_review analysis_fan_out system_context_review : ReviewState
  evidence_validation finding_verification finalization decision : ReviewState
  published terminated_early failed_context failed_internal cancelled superseded : ReviewState

-- The position of a member in the enumeration, which tells members apart.
abbrev pub ordinal : ReviewState → ℕ
ordinal init = 0
ordinal context_collection = 1
ordinal static_analysis = 2
ordinal defect_review = 3
ordinal document_review = 4
ordinal purpose_review = 5
ordinal design_review = 6
ordinal analysis_fan_out = 7
ordinal system_context_review = 8
ordinal evidence_validation = 9
ordinal finding_verification = 10
ordinal finalization = 11
ordinal decision = 12
ordinal published = 13
ordinal terminated_early = 14
ordinal failed_context = 15
ordinal failed_internal = 16
ordinal cancelled = 17
ordinal superseded = 18

infix 50 ◌is◌
abbrev pub ◌is◌ : ReviewState → ReviewState → Bool
a is b = ordinal a == ordinal b

-- `TERMINAL`.
abbrev pub terminal_states : List ReviewState
terminal_states =
    published ∷ terminated_early ∷ failed_context ∷ failed_internal ∷ cancelled ∷ superseded ∷ []

-- `state in TERMINAL`.
abbrev pub is_terminal : ReviewState → Bool
is_terminal s = any (λ t. t is s) terminal_states

-- The literal that `LEGAL` starts as.
abbrev stage_edges : ReviewState → List ReviewState
stage_edges init = context_collection ∷ finalization ∷ []
stage_edges context_collection = static_analysis ∷ document_review ∷ []
stage_edges static_analysis = defect_review ∷ []
stage_edges defect_review = evidence_validation ∷ []
stage_edges document_review = evidence_validation ∷ []
stage_edges purpose_review = evidence_validation ∷ []
stage_edges design_review = evidence_validation ∷ []
stage_edges analysis_fan_out = evidence_validation ∷ []
stage_edges system_context_review = evidence_validation ∷ []
stage_edges evidence_validation = finding_verification ∷ []
stage_edges finding_verification = finalization ∷ []
stage_edges finalization = decision ∷ []
stage_edges decision = published ∷ []
stage_edges _ = []

-- The loop over `set(ReviewState) - TERMINAL`.
abbrev failure_edges : ReviewState → List ReviewState
failure_edges s =
    if is_terminal s then [] else failed_internal ∷ failed_context ∷ cancelled ∷ superseded ∷ []

-- The short circuits for feature milestones, at the end of the module.
abbrev short_circuits : ReviewState → List ReviewState
short_circuits context_collection = finalization ∷ []
short_circuits static_analysis = finalization ∷ []
short_circuits purpose_review = finalization ∷ []
short_circuits design_review = finalization ∷ []
short_circuits _ = []

-- `LEGAL.get(s, set())` once the module has been imported.
unfoldable pub legal : ReviewState → List ReviewState
legal s = stage_edges s ++ (failure_edges s ++ short_circuits s)

-- `check_transition`: true where it returns, false where it raises `ValueError`.
unfoldable pub check_transition : ReviewState → ReviewState → Bool
unfolding legal
check_transition old new = any (λ t. t is new) (legal old)

-- `ORDER`.
abbrev pub order : List ReviewState
order =
    init ∷ context_collection ∷ static_analysis ∷ defect_review ∷ document_review ∷ purpose_review
    ∷ design_review ∷ analysis_fan_out ∷ system_context_review ∷ evidence_validation
    ∷ finding_verification ∷ finalization ∷ decision ∷ []

index_from : ℕ → ReviewState → List ReviewState → Option ℕ
index_from i s [] = none
index_from i s (t ∷ ts) = if t is s then some i else index_from (suc i) s ts

-- `ORDER.index(s)`; `none` is its `ValueError`.
unfoldable pub order_index : ReviewState → Option ℕ
unfolding index_from
order_index s = index_from 0 s order

-- `UNSTOPPABLE`.
abbrev pub unstoppable : List ReviewState
unstoppable = decision ∷ []

-- `state in UNSTOPPABLE`.
abbrev pub is_unstoppable : ReviewState → Bool
is_unstoppable s = any (λ t. t is s) unstoppable
