-- ===== src/Context/Chunks/Laws.antt =====
-- The sizes of chunks (`file_chunks` of reviewer/context/partition.py).
use code_reviewer.Prelude.{
  ℕ, ◌≤◌, ◌≡◌, refl, ◌⊎◌, inl, inr, Bool, true, false, Option, none, List, [], ◌∷◌, ◌++◌, map,
  arith, leb, Bool-cases, length, All, All-append, leb→le,
}
use code_reviewer.Prelude.Text.{Text}
use code_reviewer.Context.Chunks.{
  or_previous, starts_definition, is_nonempty, is_adjacent, gap_before, close_if, add_line,
  overflows, file_chunks, chunks_of, append_line, add_runs, add_run, add_lines, Packing,
}
use code_reviewer.Context.Diff.{render, Line, DiffFile, size}
use code_reviewer.Context.Partition.{segments, Run}

-- A chunk fits the limit, or is one line, which no cut between lines makes smaller.
abbrev pub Fits : ℕ → List Text → Type 0
Fits limit c = (size c ≤ limit) ⊎ (length c ≡ 1)

abbrev Packed : ℕ → Packing → Type 0
Packed limit p = All (Fits limit) p.chunks × Fits limit p.pending

empty-Fits : (limit : ℕ) → Fits limit []
unfolding size
empty-Fits limit = inl (omega arith)

close_if-Packed :
    (limit : ℕ) (b : Bool) (p : Packing) → Packed limit p → Packed limit (close_if b p)
close_if-Packed limit true p h =
    (All-append (Fits limit) p.chunks (p.pending ∷ []) h.0 (h.1, tt), empty-Fits limit)
close_if-Packed limit false p h = h

append-Fits :
    (limit : ℕ) (value : Text) (pending : List Text)
    → overflows limit pending value ≡ false
    → Fits limit (pending ++ (value ∷ []))
unfolding overflows
append-Fits limit value [] h = inr refl
append-Fits limit value (c ∷ cs) h = inl (ground (arith, h))

append_line-Packed :
    (limit : ℕ) (value : Text) (p : Packing)
    → Packed limit p
    → Packed limit (append_line limit value p)
unfolding append_line
append_line-Packed limit value p h = elim (Bool-cases (overflows limit p.pending value)) [
  | inl e ↦ rw e ((close_if-Packed limit true p h).0, inr refl)
  | inr e ↦ rw e (h.0, append-Fits limit value p.pending e)
]

add_lines-Packed :
    (f : DiffFile) (limit : ℕ) (ls : List Line) (p : Packing)
    → Packed limit p
    → Packed limit (add_lines f limit ls p)
unfolding add_lines add_line
add_lines-Packed f limit [] p h = h
add_lines-Packed f limit (l ∷ ls) p h =
    let start = starts_definition f limit l (l ∷ ls) p.pending in
    add_lines-Packed f limit ls (append_line limit (render l) (close_if start p))
      (append_line-Packed limit (render l) (close_if start p) (close_if-Packed limit start p h))

add_run-Packed :
    (f : DiffFile) (limit : ℕ) (adjacent : Bool) (ls : List Line) (p : Packing)
    → Packed limit p
    → Packed limit (add_run f limit adjacent ls p)
unfolding add_run
add_run-Packed f limit adjacent ls p h =
    let joined = p.pending ++ (gap_before adjacent p.pending ++ map render ls) in
    elim (Bool-cases (leb (size joined) limit)) [
      | inl e ↦ rw e (h.0, inl (leb→le (size joined) limit e))
      | inr e ↦ rw e (
          add_lines-Packed f limit ls (close_if (is_nonempty p.pending) p)
            (close_if-Packed limit (is_nonempty p.pending) p h))
    ]

add_runs-Packed :
    (f : DiffFile) (limit : ℕ) (previous : Option ℕ) (rs : List Run) (p : Packing)
    → Packed limit p
    → Packed limit (add_runs f limit previous rs p)
unfolding add_runs
add_runs-Packed f limit previous [] p h = h
add_runs-Packed f limit previous (r ∷ rs) p h =
    let adjacent = is_adjacent previous r.first in
    add_runs-Packed f limit (or_previous r.last previous) rs (add_run f limit adjacent r.lines p)
      (add_run-Packed f limit adjacent r.lines p h)

chunks_of-Fits :
    (f : DiffFile) (limit : ℕ) (rs : List Run) → All (Fits limit) (chunks_of f limit rs)
unfolding chunks_of
chunks_of-Fits f limit [] = (inr refl, tt)
chunks_of-Fits f limit (r ∷ rs) =
    let start : Packing = record { chunks = []; pending = [] } in
    let packed = add_runs f limit none (r ∷ rs) start in
    (close_if-Packed limit (is_nonempty packed.pending) packed
      (add_runs-Packed f limit none (r ∷ rs) start (tt, empty-Fits limit))).0

-- Every chunk of a file is within the byte limit, or is a single line.
pub file_chunks-Fits : (f : DiffFile) (limit : ℕ) → All (Fits limit) (file_chunks f limit)
unfolding file_chunks
file_chunks-Fits f limit = chunks_of-Fits f limit (segments f)
