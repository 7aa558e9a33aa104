-- ===== src/Examples/Context.antt =====
-- Examples for the diff (reviewer/context/partition.py).
use code_reviewer.Prelude.{
  ℕ, suc, ◌≤◌, ◌≡◌, refl, true, false, Option, none, some, [], ◌∷◌, map, length, All,
}
use code_reviewer.Prelude.Text.{codes}
use code_reviewer.Context.Diff.{size, render, Line, Kind, DiffFile, context, added}
use code_reviewer.Context.Chunks.Laws.{Fits}
use code_reviewer.Context.Partition.Keeps.{segments-diff, run_lines, from_diff, concat}
use code_reviewer.Context.Chunks.{is_nonempty, file_chunks}
use code_reviewer.Context.Partition.{largest, widen_high, in_scope, segments}
use code_reviewer.Context.Chunks.Keeps.{file_chunks-lines, without_gaps}
use code_reviewer.Context.Chunks.Laws.{file_chunks-Fits}
use code_reviewer.Context.Partition.Widening.{widen_high_exact, Covered}

-- What the definitions below compute through.
program : Unit {0}
unfolding segments file_chunks size render
program = tt

abbrev line_at : Kind → Option ℕ → Option ℕ → Line
line_at kind old new = record { text = codes "x = 1"; old_line = old; new_line = new; kind = kind }

-- Two new lines inside a definition whose first and last lines are in the scope.
abbrev changed : DiffFile
changed = record {
  path = "a.py";
  old_path = none;
  hunks =
      record { old_start = some 3; old_lines = some 1; new_start = some 3; new_lines = some 2 }
      ∷ [];
  symbol_ranges = (2, 5) ∷ [];
  lines = line_at context (some 3) (some 3) ∷ line_at added none (some 4) ∷ [];
  scope = (2, codes "def f():") ∷ (5, codes "return x") ∷ (9, codes "def g():") ∷ [];
}

widened_run :
    map {B = ℕ × Option ℕ} (λ r. (length r.lines, r.first)) (segments changed) ≡ (4, some 2) ∷ []
unfolding program
widened_run = refl

-- A limit of 30 bytes holds two lines.
two_chunks : map length (file_chunks changed 30) ≡ 2 ∷ 2 ∷ []
unfolding program
two_chunks = refl

widen_high_exact_example :
    (in_scope changed.scope (suc (widen_high (largest changed.scope) changed.scope 4)) ≡ false)
    × (4 ≤ widen_high (largest changed.scope) changed.scope 4)
    × Covered changed.scope 4 (widen_high (largest changed.scope) changed.scope 4)
widen_high_exact_example = widen_high_exact changed.scope 4

segments-diff_example : from_diff (run_lines (segments changed)) ≡ from_diff changed.lines
segments-diff_example = segments-diff changed

file_chunks-Fits_example : All (Fits 30) (file_chunks changed 30)
file_chunks-Fits_example = file_chunks-Fits changed 30

whole : is_nonempty (segments changed) ≡ true
unfolding program
whole = refl

file_chunks-lines_example :
    without_gaps (concat (file_chunks changed 30)) ≡ map render (run_lines (segments changed))
file_chunks-lines_example = file_chunks-lines changed 30 whole
