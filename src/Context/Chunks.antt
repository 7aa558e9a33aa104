-- ===== src/Context/Chunks.antt =====
-- The packing of a file's runs into chunks (`file_chunks` of reviewer/context/partition.py).
pub mod Laws
pub mod Keeps
use code_reviewer.Prelude.{
  ℕ, ◌+◌, max, Bool, true, false, not, ◌&&◌, Option, none, some, List, [], ◌∷◌, ◌++◌, map, ltb, leb,
  ◌==◌, if◌then◌else◌, select_if,
}
use code_reviewer.Prelude.Text.{Text, codes}
use code_reviewer.Context.Diff.{size, render, Line, DiffFile}
use code_reviewer.Context.Partition.{Run, segments}

-- `GAP`.
abbrev pub gap : Text
gap = 32 ∷ 32 ∷ 46 ∷ 46 ∷ 46 ∷ []

abbrev pub is_nonempty {ℓ} : {A : Type ℓ} → List A → Bool
is_nonempty [] = false
is_nonempty (x ∷ xs) = true

-- `chunks` and `pending`.
pub record Packing : Type 0 where
  pub chunks : List (List Text)
  pub pending : List Text

-- `chunks.append(pending); pending = []`, under a test.
abbrev pub close_if : Bool → Packing → Packing
close_if true p = record { chunks = p.chunks ++ (p.pending ∷ []); pending = [] }
close_if false p = p

-- `ends`: the last lines of the definitions that start at a line.
unfoldable pub ends_at : List (ℕ × ℕ) → Option ℕ → List ℕ
ends_at ranges none = []
ends_at ranges (some n) = map (λ r. r.1) (select_if (λ r. r.0 == n) ranges)

unfoldable pub largest_of : List ℕ → ℕ
largest_of [] = 0
largest_of (n ∷ ns) = max n (largest_of ns)

-- `run[i].new_line is None or run[i].new_line <= max(ends)`.
abbrev pub up_to : ℕ → Line → Bool
up_to end_line l = elim l.new_line [ none ↦ true | some n ↦ leb n end_line ]

-- The test that starts a chunk at a definition which fits a fresh one, but not this one.
unfoldable pub starts_definition : DiffFile → ℕ → Line → List Line → List Text → Bool
unfolding ends_at largest_of size render
starts_definition f limit l suffix pending =
    let ends = ends_at f.symbol_ranges l.new_line in
    let symbol = map render (select_if (up_to (largest_of ends)) suffix) in
    is_nonempty pending
    && (is_nonempty ends && (leb (size symbol) limit && ltb limit (size (pending ++ symbol))))

-- The test that the line would overflow the chunk.
unfoldable pub overflows : ℕ → List Text → Text → Bool
unfolding size
overflows limit pending value = is_nonempty pending && ltb limit (size (pending ++ (value ∷ [])))

abbrev pub append_line : ℕ → Text → Packing → Packing
unfolding overflows
append_line limit value p =
    let q = close_if (overflows limit p.pending value) p in
    record q { pending = q.pending ++ (value ∷ []) }

-- One pass of the inner loop; `suffix` is the rest of the run, from the line on.
unfoldable pub add_line : DiffFile → ℕ → Line → List Line → Packing → Packing
unfolding starts_definition append_line render
add_line f limit l suffix p =
    append_line limit (render l) (close_if (starts_definition f limit l suffix p.pending) p)

unfoldable pub add_lines : DiffFile → ℕ → List Line → Packing → Packing
unfolding add_line
add_lines f limit [] p = p
add_lines f limit (l ∷ ls) p = add_lines f limit ls (add_line f limit l (l ∷ ls) p)

-- `previous is not None and first is not None and previous + 1 == first`.
abbrev pub is_adjacent : Option ℕ → Option ℕ → Bool
is_adjacent (some previous) (some first) = previous + 1 == first
is_adjacent _ _ = false

-- `[GAP] if pending and not adjacent else []`.
abbrev pub gap_before : Bool → List Text → List Text
gap_before adjacent pending = if is_nonempty pending && not adjacent then gap ∷ [] else []

-- One pass of the outer loop.
unfoldable pub add_run : DiffFile → ℕ → Bool → List Line → Packing → Packing
unfolding add_lines size render
add_run f limit adjacent lines p =
    let joined = p.pending ++ (gap_before adjacent p.pending ++ map render lines) in
    if leb (size joined) limit
    then record p { pending = joined }
    else add_lines f limit lines (close_if (is_nonempty p.pending) p)

-- `last if last is not None else previous`.
abbrev pub or_previous : Option ℕ → Option ℕ → Option ℕ
or_previous none previous = previous
or_previous (some n) previous = some n

unfoldable pub add_runs : DiffFile → ℕ → Option ℕ → List Run → Packing → Packing
unfolding add_run
add_runs f limit previous [] p = p
add_runs f limit previous (r ∷ rs) p =
    add_runs f limit (or_previous r.last previous) rs
      (add_run f limit (is_adjacent previous r.first) r.lines p)

-- The last chunk.
abbrev pub close : Packing → List (List Text)
close p = (close_if (is_nonempty p.pending) p).chunks

abbrev pub chunks_of : DiffFile → ℕ → List Run → List (List Text)
unfolding add_runs
chunks_of f limit [] =
    ((codes f.path ++ codes ": binary or rename-only change; no textual hunks") ∷ []) ∷ []
chunks_of f limit (r ∷ rs) =
    close (add_runs f limit none (r ∷ rs) (record { chunks = []; pending = [] }))

unfoldable pub file_chunks : DiffFile → ℕ → List (List Text)
unfolding chunks_of segments
file_chunks f limit = chunks_of f limit (segments f)
