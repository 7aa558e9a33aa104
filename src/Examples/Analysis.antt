-- ===== src/Examples/Analysis.antt =====
-- Examples for a run's findings (reviewer/orchestrator/pipeline.py).
use code_reviewer.Prelude.{
  ◌≤◌, String, ◌≡◌, refl, true, false, none, some, List, [], ◌∷◌, map, arith, length, select_if,
  All,
}
use code_reviewer.Findings.Models.{Finding}
use code_reviewer.Findings.Policy.{
  base, normalize, is_hidden, needs_verification, is_doubted, final_severity,
}
use code_reviewer.Findings.Models.{confirmed}
use code_reviewer.Orchestrator.Verification.{ruled, verify_where, verify_finding}
use code_reviewer.Orchestrator.Analysis.{Run, analyse, settle, existing, skipped}
use code_reviewer.Orchestrator.Analysis.Laws.{is_explained}
use code_reviewer.Orchestrator.Analysis.Rejected.{analyse-closes_rejected, is_sound}
use code_reviewer.Findings.Models.{rejected}
use code_reviewer.Orchestrator.Analysis.Whole.{
  analyse-explained, settle-existing_limit, is_open_existing,
}
use code_reviewer.Prelude.Sorting.{sort_by, insert_by}
use code_reviewer.Examples.Sample.{claim_at, ascii}

program : Unit {0}
unfolding base normalize is_hidden needs_verification is_doubted final_severity settle existing
    skipped verify_where verify_finding sort_by insert_by
program = tt

-- The verifier confirms what it is asked.
abbrev run : Run
run = record {
  level = 7;
  touched = "a.py" ∷ [];
  categories = "style" ∷ [];
  merge_distance = 10;
  unicode = ascii;
  validated = λ f. f;
  verifier = record {
    scan = λ f. none;
    verify =
        λ f. ruled (record { counterargument = ""; reasoning = ""; verdict = confirmed }) true true;
  };
}

abbrev unjudged : String → String → Finding
unjudged category fp = record (claim_at category fp 4) { verification = none }

-- Code that the change did not introduce.
abbrev old : String → Finding
old fp =
    let f = unjudged "correctness" fp in
    record f { anchor = record f.anchor { introduced_by_this_change = false } }

abbrev olds : List Finding
olds = old "f1" ∷ old "f2" ∷ old "f3" ∷ []

reasons_settled :
    map (λ s. s.1) (settle run (unjudged "style" "f0" ∷ olds))
    ≡ some "static_tool" ∷ none ∷ none ∷ some "existing_limit" ∷ []
unfolding program
reasons_settled = refl

settle-existing_limit_example :
    length (select_if (λ s. is_open_existing run s.0) (settle run olds)) ≤ 2
settle-existing_limit_example = settle-existing_limit run olds (omega arith)

analyse-explained_example :
    All
      (λ s. is_explained s ≡ true)
      (analyse run
        (olds ∷ (unjudged "correctness" "f4" ∷ []) ∷ [])
        (unjudged "correctness" "f5" ∷ [])
        [])
analyse-explained_example =
    analyse-explained run (olds ∷ (unjudged "correctness" "f4" ∷ []) ∷ [])
      (unjudged "correctness" "f5" ∷ []) [] (omega arith)

-- New findings without a verdict, which the verifier rejects.
abbrev doubting : Run
doubting = record run {
  validated = λ f. record f { verification = none };
  verifier = record {
    scan = λ f. none;
    verify = λ f.
        ruled (record { counterargument = "No"; reasoning = ""; verdict = rejected }) true true;
  };
}

analyse-closes_rejected_example :
    All
      (λ s. is_sound s.0 ≡ true)
      (analyse doubting ((old "f1" ∷ unjudged "correctness" "f4" ∷ []) ∷ []) [] [])
analyse-closes_rejected_example =
    analyse-closes_rejected doubting ((old "f1" ∷ unjudged "correctness" "f4" ∷ []) ∷ []) [] []
      (λ f. refl)
