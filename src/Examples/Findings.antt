-- ===== src/Examples/Findings.antt =====
-- Examples for findings, the decision and triage (reviewer/findings, reviewer/decision/engine.py,
-- reviewer/agents/severity_triage.py).
use code_reviewer.Prelude.{
  ◌+◌, ◌≡◌, refl, true, false, Option, none, some, List, [], ◌∷◌, map, length, select_if,
}
use code_reviewer.Findings.Models.{Finding, fyi}
use code_reviewer.Findings.Policy.{
  needs_verification, is_doubted, final_severity, is_hidden, normalize, base,
}
use code_reviewer.Prelude.Sorting.{sort_by, insert_by}
use code_reviewer.Findings.Selection.{
  add_one, place, not_after, visit, visit_all, candidates, select, Selection, count_of,
}
use code_reviewer.Findings.Selection.Limits.{select_conserves, total, is_open}
use code_reviewer.Findings.Triage.{gates, apply, triage_batches, mark, Judgement, triage, lower_to}
use code_reviewer.Findings.Triage.Laws.{decide-triage}
use code_reviewer.Findings.Dedup.{deduplicate, related}
use code_reviewer.Findings.Dedup.Laws.{Apart, deduplicate-Apart}
use code_reviewer.Decision.{Outcome, decide, approve, request_changes, gating, advisory, blocks}
use code_reviewer.Decision.Laws.{blocks-normalize}
use code_reviewer.Examples.Sample.{claim_at, ascii}

-- What the definitions below compute through.
program : Unit {0}
unfolding decide normalize base is_hidden final_severity is_doubted needs_verification select
    candidates visit_all visit not_after sort_by insert_by place count_of add_one triage mark
    triage_batches apply gates deduplicate
program = tt

abbrev claim : Finding
claim = claim_at "correctness" "f1" 4

abbrev defect : Finding
defect = normalize claim [] []

whole : Outcome
whole = record { partial = false; complete = true }

defect_blocks : decide whole (defect ∷ []) [] ≡ request_changes
unfolding program whole
defect_blocks = refl

-- A security claim is capped to a suggestion, and does not block.
security_passes : decide whole (normalize (claim_at "security" "f1" 4) [] [] ∷ []) [] ≡ approve
unfolding program whole
security_passes = refl

blocks-normalize_example : blocks (normalize claim [] []) ≡ true
unfolding base is_hidden
blocks-normalize_example = blocks-normalize claim [] []

-- The model's answer asks for the lowest severity; in gating mode it stays REQUIRED.
abbrev answers : List (Option (List Judgement))
answers =
    some
      (record { finding = 1; severity = lower_to fyi; impact_level = none; reason = "minor" } ∷ [])
    ∷ []

triage_lowers :
    map (λ f. f.severity_final) (triage advisory answers (defect ∷ [])).0 ≡ some fyi ∷ []
unfolding program
triage_lowers = refl

decide-triage_example :
    decide whole (triage gating answers (defect ∷ [])).0 [] ≡ decide whole (defect ∷ []) []
decide-triage_example = decide-triage answers (defect ∷ []) whole []

abbrev two : List Finding
two = defect ∷ normalize (claim_at "style" "f2" 9) [] [] ∷ []

abbrev chosen : Selection
chosen = record {
  inline = defect ∷ [];
  summary = normalize (claim_at "style" "f2" 9) [] [] ∷ [];
  overflow = [];
  per_file = ("a.py", 1) ∷ [];
  existing = 0;
}

two_selected : select two 15 5 ≡ some chosen
unfolding program
two_selected = refl

select_conserves_example :
    length chosen.inline + length chosen.summary + total chosen.overflow
    ≡ length (select_if is_open two)
select_conserves_example = select_conserves two 15 5 chosen two_selected

-- Two claims on nearby lines, worded alike, are one.
merged : length (deduplicate ascii 10 (claim ∷ claim_at "correctness" "f2" 9 ∷ [])) ≡ 1
unfolding deduplicate
merged = refl

deduplicate-Apart_example :
    Apart (related ascii 10) (deduplicate ascii 10 (claim ∷ claim_at "correctness" "f2" 9 ∷ []))
deduplicate-Apart_example = deduplicate-Apart ascii 10 (claim ∷ claim_at "correctness" "f2" 9 ∷ [])
