-- ===== src/Context/Partition/Keeps.antt =====
-- The lines of the diff in its hunks and runs (reviewer/context/partition.py).
use code_reviewer.Prelude.{
  ℕ, zero, suc, ◌-◌, ◌≡◌, refl, sym, ap, ◌∙◌, Bool, true, false, not, ◌&&◌, Option, none, some,
  List, [], ◌∷◌, ◌++◌, arith, if◌then◌else◌, select_if,
}
use code_reviewer.Prelude.Text.{Text}
use mathlib.Core.List.{append-nil, append_assoc}
use code_reviewer.Context.Partition.{
  largest, widen_high, widen_low, numbers, last_of, widened, segments, scope_line, reverse_onto,
  floor_of, add_hunks, or_zero, add_hunk, scope_lines, Run, take_hunk, nonempty, hunks_of,
  hunk_lines,
}
use code_reviewer.Context.Diff.{is_removed, is_added, is_context, Line, Hunk, DiffFile}

unfoldable pub concat {ℓ} : {A : Type ℓ} → List (List A) → List A
concat [] = []
concat (xs ∷ xss) = xs ++ concat xss

take_hunk-append : (o n : ℕ) (ls : List Line) → (take_hunk o n ls).0 ++ (take_hunk o n ls).1 ≡ ls
unfolding take_hunk
take_hunk-append o n [] = refl
take_hunk-append o n (l ∷ ls) = ground (
  arith,
  take_hunk-append (if is_added l.kind then o else o - 1) (if is_removed l.kind then n else n - 1)
      ls,
)

concat-nonempty {ℓ} :
    {A : Type ℓ} (xs : List A) (rest : List (List A))
    → concat (nonempty xs rest) ≡ xs ++ concat rest
unfolding concat
concat-nonempty [] rest = refl
concat-nonempty (x ∷ xs) rest = refl

hunks_of-concat : (hs : List Hunk) (lines : List Line) → concat (hunks_of hs lines) ≡ lines
unfolding hunks_of concat
hunks_of-concat [] lines = concat-nonempty lines [] ∙ append-nil lines
hunks_of-concat (h ∷ hs) lines =
    let o = or_zero h.old_lines in
    let n = or_zero h.new_lines in
    let cut = take_hunk o n lines in
    concat-nonempty cut.0 (hunks_of hs cut.1)
    ∙ ap (λ xs. cut.0 ++ xs) (hunks_of-concat hs cut.1)
    ∙ take_hunk-append o n lines

-- The hunks of a file, one after the other, are its diff lines: every line in one hunk, in order.
pub hunk_lines-concat : (f : DiffFile) → concat (hunk_lines f) ≡ f.lines
unfolding hunk_lines
hunk_lines-concat f = hunks_of-concat f.hunks f.lines

-- A line that the scope supplied: a context line without an old number, which no diff line is.
abbrev pub is_supplied : Line → Bool
is_supplied l = is_context l.kind && not (has_text_at l.old_line)
  where
    has_text_at : Option ℕ → Bool
    has_text_at none = false
    has_text_at (some n) = true

-- The lines of the diff among these.
abbrev pub from_diff : List Line → List Line
from_diff ls = select_if (λ l. not (is_supplied l)) ls

from_diff-append : (xs ys : List Line) → from_diff (xs ++ ys) ≡ from_diff xs ++ from_diff ys
from_diff-append [] ys = refl
from_diff-append (x ∷ xs) ys = ground (arith, from_diff-append xs ys)

from_diff-scope_lines :
    (scope : List (ℕ × Text)) (low count : ℕ) → from_diff (scope_lines scope low count) ≡ []
unfolding scope_lines scope_line
from_diff-scope_lines scope low zero = refl
from_diff-scope_lines scope low (suc count) = from_diff-scope_lines scope (suc low) count

-- The diff lines of runs that stand newest first, in their order.
diff_of : List Run → List Line
diff_of [] = []
diff_of (r ∷ rs) = diff_of rs ++ from_diff r.lines

widened-diff :
    (f : DiffFile) (h : List Line) (floor first_n last_n : ℕ)
    → from_diff (widened f h floor first_n last_n).lines ≡ from_diff h
unfolding widened
widened-diff f h floor first_n last_n =
    let low = widen_low f.scope floor first_n in
    let high = widen_high (largest f.scope) f.scope last_n in
    let after = scope_lines f.scope (suc last_n) (high - last_n) in
    from_diff-append (scope_lines f.scope low (first_n - low)) (h ++ after)
    ∙ ap (λ xs. xs ++ from_diff (h ++ after)) (from_diff-scope_lines f.scope low (first_n - low))
    ∙ from_diff-append h after
    ∙ ap (λ xs. from_diff h ++ xs) (from_diff-scope_lines f.scope (suc last_n) (high - last_n))
    ∙ append-nil (from_diff h)

add_hunk-diff :
    (f : DiffFile) (h : List Line) (ns : List ℕ) (runs : List Run)
    → diff_of (add_hunk f h ns runs) ≡ diff_of runs ++ from_diff h
unfolding diff_of add_hunk
add_hunk-diff f h [] [] = refl
add_hunk-diff f h [] (r ∷ rs) =
    ap (λ xs. diff_of rs ++ xs) (from_diff-append r.lines h)
    ∙ sym (append_assoc (diff_of rs) (from_diff r.lines) (from_diff h))
add_hunk-diff f h (n ∷ ns) runs =
    ap (λ xs. diff_of runs ++ xs) (widened-diff f h (floor_of runs) n (last_of n ns))

add_hunks-diff :
    (f : DiffFile) (hs : List (List Line)) (runs : List Run)
    → diff_of (add_hunks f hs runs) ≡ diff_of runs ++ from_diff (concat hs)
unfolding add_hunks concat
add_hunks-diff f [] runs = sym (append-nil (diff_of runs))
add_hunks-diff f (h ∷ hs) runs =
    add_hunks-diff f hs (add_hunk f h (numbers h) runs)
    ∙ ap (λ xs. xs ++ from_diff (concat hs)) (add_hunk-diff f h (numbers h) runs)
    ∙ append_assoc (diff_of runs) (from_diff h) (from_diff (concat hs))
    ∙ ap (λ xs. diff_of runs ++ xs) (sym (from_diff-append h (concat hs)))

-- The lines of runs, one run after the other.
unfoldable pub run_lines : List Run → List Line
run_lines [] = []
run_lines (r ∷ rs) = r.lines ++ run_lines rs

reverse_onto-diff :
    (rs acc : List Run)
    → from_diff (run_lines (reverse_onto rs acc)) ≡ diff_of rs ++ from_diff (run_lines acc)
unfolding reverse_onto diff_of run_lines
reverse_onto-diff [] acc = refl
reverse_onto-diff (r ∷ rs) acc =
    reverse_onto-diff rs (r ∷ acc)
    ∙ ap (λ xs. diff_of rs ++ xs) (from_diff-append r.lines (run_lines acc))
    ∙ sym (append_assoc (diff_of rs) (from_diff r.lines) (from_diff (run_lines acc)))

-- Apart from context lines without an old line number, as the scope supplies them, the runs of a
-- file show the lines of its diff, each once and in order.
pub segments-diff : (f : DiffFile) → from_diff (run_lines (segments f)) ≡ from_diff f.lines
unfolding segments diff_of run_lines
segments-diff f =
    reverse_onto-diff (add_hunks f (hunk_lines f) []) []
    ∙ append-nil (diff_of (add_hunks f (hunk_lines f) []))
    ∙ add_hunks-diff f (hunk_lines f) []
    ∙ ap from_diff (hunk_lines-concat f)
