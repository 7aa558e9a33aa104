-- ===== src/Context/Partition.antt =====
-- A file's diff split into hunks, and these widened into runs (reviewer/context/partition.py).
pub mod Keeps
pub mod Widening
use code_reviewer.Prelude.{
  ℕ, zero, suc, ◌-◌, max, Bool, true, false, ◌&&◌, ◌||◌, Option, none, some, List, [], ◌∷◌, ◌++◌,
  ltb, ◌==◌, if◌then◌else◌,
}
use code_reviewer.Prelude.Text.{Text}
use code_reviewer.Context.Diff.{is_removed, is_added, context, Line, Hunk, DiffFile}

abbrev pub or_zero : Option ℕ → ℕ
or_zero none = 0
or_zero (some n) = n

-- The inner loop of `hunk_lines`: the lines of a hunk that has this many old and new lines left, and
-- the lines after it. A count below 0 ends the loop as 0 does, and never rises.
unfoldable pub take_hunk : ℕ → ℕ → List Line → List Line × List Line
take_hunk old_left new_left [] = ([], [])
take_hunk old_left new_left (l ∷ ls) =
    let (taken, rest) =
      take_hunk (if is_added l.kind then old_left else old_left - 1)
        (if is_removed l.kind then new_left else new_left - 1) ls in
    if ltb 0 old_left || ltb 0 new_left then (l ∷ taken, rest) else ([], l ∷ ls)

-- `[h for h in hunks if h]`, one at a time.
abbrev pub nonempty {ℓ} : {A : Type ℓ} → List A → List (List A) → List (List A)
nonempty [] rest = rest
nonempty (x ∷ xs) rest = (x ∷ xs) ∷ rest

-- `hunk_lines`, from the offset on.
unfoldable pub hunks_of : List Hunk → List Line → List (List Line)
unfolding take_hunk
hunks_of [] lines = nonempty lines []
hunks_of (h ∷ hs) lines =
    let (taken, rest) = take_hunk (or_zero h.old_lines) (or_zero h.new_lines) lines in
    nonempty taken (hunks_of hs rest)

unfoldable pub hunk_lines : DiffFile → List (List Line)
unfolding hunks_of
hunk_lines f = hunks_of f.hunks f.lines

-- A run of `segments`: the first and last new line numbers, none where the run has none.
pub record Run : Type 0 where
  pub first : Option ℕ
  pub last : Option ℕ
  pub lines : List Line

unfoldable pub scope_text : List (ℕ × Text) → ℕ → Option Text
scope_text [] n = none
scope_text ((m, t) ∷ scope) n = let rest = scope_text scope n in if m == n then some t else rest

abbrev pub has_text : Option Text → Bool
has_text none = false
has_text (some t) = true

abbrev text_of : Option Text → Text
text_of none = []
text_of (some t) = t

-- `n in scope`.
unfoldable pub in_scope : List (ℕ × Text) → ℕ → Bool
unfolding scope_text
in_scope scope n = has_text (scope_text scope n)

-- The inner function `context`.
abbrev pub scope_line : List (ℕ × Text) → ℕ → Line
unfolding scope_text
scope_line scope n = record {
  text = text_of (scope_text scope n);
  old_line = none;
  new_line = some n;
  kind = context;
}

-- `while low - 1 > floor and low - 1 in scope: low -= 1`.
unfoldable pub widen_low : List (ℕ × Text) → ℕ → ℕ → ℕ
unfolding in_scope
widen_low scope floor zero = zero
widen_low scope floor (suc low) =
    let lower = widen_low scope floor low in
    if ltb floor low && in_scope scope low then lower else suc low

-- `while high + 1 in scope: high += 1`, on fuel: a scope has no more lines than its largest number.
unfoldable pub widen_high : ℕ → List (ℕ × Text) → ℕ → ℕ
unfolding in_scope
widen_high zero scope high = high
widen_high (suc fuel) scope high =
    let higher = widen_high fuel scope (suc high) in
    if in_scope scope (suc high) then higher else high

unfoldable pub largest : List (ℕ × Text) → ℕ
largest [] = 0
largest ((n, t) ∷ scope) = max n (largest scope)

-- `[context(n) for n in range(low, low + count)]`.
unfoldable pub scope_lines : List (ℕ × Text) → ℕ → ℕ → List Line
scope_lines scope low zero = []
scope_lines scope low (suc count) = scope_line scope low ∷ scope_lines scope (suc low) count

-- `max((r[1] for r in runs if r[1] is not None), default=0)`.
unfoldable pub floor_of : List Run → ℕ
floor_of [] = 0
floor_of (r ∷ rs) = max (or_zero r.last) (floor_of rs)

-- `numbers`: the new line numbers of a hunk.
unfoldable pub numbers : List Line → List ℕ
numbers [] = []
numbers (l ∷ ls) = let rest = numbers ls in elim l.new_line [ none ↦ rest | some n ↦ n ∷ rest ]

-- `numbers[-1]`, of a list that is not empty.
abbrev pub last_of : ℕ → List ℕ → ℕ
last_of n [] = n
last_of n (m ∷ ms) = last_of m ms

-- The run of a hunk whose first and last new line numbers are given.
abbrev pub widened : DiffFile → List Line → ℕ → ℕ → ℕ → Run
unfolding widen_low widen_high largest scope_lines
widened f hunk floor first_n last_n =
    let low = widen_low f.scope floor first_n in
    let high = widen_high (largest f.scope) f.scope last_n in
    record {
      first = some low;
      last = some high;
      lines =
          scope_lines f.scope low (first_n - low)
          ++ (hunk ++ scope_lines f.scope (suc last_n) (high - last_n));
    }

-- A hunk that has no new line joins the run before it.
abbrev pub join_run : List Line → List Run → List Run
join_run hunk [] = record { first = none; last = none; lines = hunk } ∷ []
join_run hunk (r ∷ rs) = record r { lines = r.lines ++ hunk } ∷ rs

-- One pass of the loop of `segments`; the runs so far stand newest first.
abbrev pub add_hunk : DiffFile → List Line → List ℕ → List Run → List Run
unfolding widened floor_of
add_hunk f hunk [] runs = join_run hunk runs
add_hunk f hunk (n ∷ ns) runs = widened f hunk (floor_of runs) n (last_of n ns) ∷ runs

unfoldable pub add_hunks : DiffFile → List (List Line) → List Run → List Run
unfolding add_hunk numbers
add_hunks f [] runs = runs
add_hunks f (h ∷ hs) runs = add_hunks f hs (add_hunk f h (numbers h) runs)

-- The list from its last item to its first, before another.
unfoldable pub reverse_onto {ℓ} : {A : Type ℓ} → List A → List A → List A
reverse_onto [] ys = ys
reverse_onto (x ∷ xs) ys = reverse_onto xs (x ∷ ys)

unfoldable pub segments : DiffFile → List Run
unfolding add_hunks hunk_lines reverse_onto
segments f = reverse_onto (add_hunks f (hunk_lines f) []) []
