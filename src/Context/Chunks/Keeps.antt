-- ===== src/Context/Chunks/Keeps.antt =====
-- The lines that the chunks of a file show (`file_chunks` of reviewer/context/partition.py).
use code_reviewer.Prelude.{
  ℕ, zero, suc, ◌-◌, ◌≤◌, ◌≡◌, refl, sym, ap, ◌∙◌, inl, inr, Bool, true, false, not, Option, none,
  List, [], ◌∷◌, ◌++◌, map, arith, leb, ◌==◌, Bool-cases, length, select_if, length-append, &&_true,
}
use code_reviewer.Prelude.Text.{Text, text_eq}
use mathlib.Core.List.{append-nil, append_assoc}
use code_reviewer.Context.Diff.{sign, number, spaces, size, DiffFile, render, Line}
use code_reviewer.Context.Chunks.{
  or_previous, is_adjacent, overflows, starts_definition, is_nonempty, close_if, close, append_line,
  gap_before, gap, file_chunks, chunks_of, add_runs, add_run, add_lines, add_line, Packing,
}
use code_reviewer.Context.Partition.Keeps.{run_lines, concat}
use code_reviewer.Context.Partition.{segments, Run}

abbrev pub is_gap : Text → Bool
is_gap t = text_eq t gap

-- The lines that are no gap mark.
abbrev pub without_gaps : List Text → List Text
without_gaps ts = select_if (λ t. not (is_gap t)) ts

text_eq-length : (s t : Text) → text_eq s t ≡ true → length s ≡ length t
text_eq-length [] [] h = refl
text_eq-length [] (b ∷ t) h = ground (arith, h)
text_eq-length (a ∷ s) [] h = ground (arith, h)
text_eq-length (a ∷ s) (b ∷ t) h = ap suc (text_eq-length s t (&&_true (a == b) (text_eq s t) h).1)

length-spaces : (n : ℕ) → length (spaces n) ≡ n
unfolding spaces
length-spaces zero = refl
length-spaces (suc n) = ap suc (length-spaces n)

length-render : (l : Line) → 8 ≤ length (render l)
unfolding render
length-render l = omega (
  arith,
  length-append (spaces (5 - length (number l.new_line)) ++ number l.new_line)
      (32 ∷ sign l.kind ∷ 32 ∷ l.text),
  length-append (spaces (5 - length (number l.new_line))) (number l.new_line),
  length-spaces (5 - length (number l.new_line)),
)

render-not_gap : (l : Line) → is_gap (render l) ≡ false
render-not_gap l = elim (Bool-cases (is_gap (render l))) [
  | inl e ↦ ground (arith, text_eq-length (render l) gap e, length-render l)
  | inr e ↦ e
]

without_gaps-append :
    (xs ys : List Text) → without_gaps (xs ++ ys) ≡ without_gaps xs ++ without_gaps ys
without_gaps-append [] ys = refl
without_gaps-append (x ∷ xs) ys = elim (Bool-cases (is_gap x)) [
  | inl e ↦ rw e (without_gaps-append xs ys)
  | inr e ↦ rw e (ap (λ zs. x ∷ zs) (without_gaps-append xs ys))
]

without_gaps-render : (ls : List Line) → without_gaps (map render ls) ≡ map render ls
without_gaps-render [] = refl
without_gaps-render (l ∷ ls) =
    rw (render-not_gap l) (ap (λ zs. render l ∷ zs) (without_gaps-render ls))

concat-append {ℓ} :
    {A : Type ℓ} (xss yss : List (List A)) → concat (xss ++ yss) ≡ concat xss ++ concat yss
unfolding concat
concat-append [] yss = refl
concat-append (xs ∷ xss) yss =
    ap (λ zs. xs ++ zs) (concat-append xss yss) ∙ sym (append_assoc xs (concat xss) (concat yss))

-- The lines that a packing holds, without the gap marks.
abbrev packed_lines : Packing → List Text
packed_lines p = without_gaps (concat p.chunks ++ p.pending)

close_if-lines : (b : Bool) (p : Packing) → packed_lines (close_if b p) ≡ packed_lines p
unfolding concat
close_if-lines true p = ap without_gaps (
    append-nil (concat (p.chunks ++ (p.pending ∷ [])))
    ∙ concat-append p.chunks (p.pending ∷ [])
    ∙ ap (λ zs. concat p.chunks ++ zs) (append-nil p.pending))
close_if-lines false p = refl

-- Lines put at the end of the open chunk come last.
pending-lines :
    (chunks : List (List Text)) (pending new : List Text)
    → without_gaps (concat chunks ++ (pending ++ new))
      ≡ without_gaps (concat chunks ++ pending) ++ without_gaps new
pending-lines chunks pending new =
    ap without_gaps (sym (append_assoc (concat chunks) pending new))
    ∙ without_gaps-append (concat chunks ++ pending) new

add_line-lines :
    (f : DiffFile) (limit : ℕ) (l : Line) (suffix : List Line) (p : Packing)
    → packed_lines (add_line f limit l suffix p) ≡ packed_lines p ++ (render l ∷ [])
unfolding add_line append_line
add_line-lines f limit l suffix p =
    let q = close_if (starts_definition f limit l suffix p.pending) p in
    let r = close_if (overflows limit q.pending (render l)) q in
    pending-lines r.chunks r.pending (render l ∷ [])
    ∙ ap (λ zs. packed_lines r ++ zs) (without_gaps-render (l ∷ []))
    ∙ ap (λ zs. zs ++ (render l ∷ []))
        (close_if-lines (overflows limit q.pending (render l)) q
          ∙ close_if-lines (starts_definition f limit l suffix p.pending) p)

add_lines-lines :
    (f : DiffFile) (limit : ℕ) (ls : List Line) (p : Packing)
    → packed_lines (add_lines f limit ls p) ≡ packed_lines p ++ map render ls
unfolding add_lines
add_lines-lines f limit [] p = sym (append-nil (packed_lines p))
add_lines-lines f limit (l ∷ ls) p =
    add_lines-lines f limit ls (add_line f limit l (l ∷ ls) p)
    ∙ ap (λ zs. zs ++ map render ls) (add_line-lines f limit l (l ∷ ls) p)
    ∙ append_assoc (packed_lines p) (render l ∷ []) (map render ls)

without_gaps-gap_before :
    (adjacent : Bool) (pending : List Text) → without_gaps (gap_before adjacent pending) ≡ []
without_gaps-gap_before true [] = refl
without_gaps-gap_before false [] = refl
without_gaps-gap_before true (t ∷ ts) = refl
without_gaps-gap_before false (t ∷ ts) = refl

add_run-lines :
    (f : DiffFile) (limit : ℕ) (adjacent : Bool) (ls : List Line) (p : Packing)
    → packed_lines (add_run f limit adjacent ls p) ≡ packed_lines p ++ map render ls
unfolding add_run
add_run-lines f limit adjacent ls p =
    let before = gap_before adjacent p.pending in
    let joined = p.pending ++ (before ++ map render ls) in
    elim (Bool-cases (leb (size joined) limit)) [
      | inl e ↦ rw e (
          pending-lines p.chunks p.pending (before ++ map render ls)
          ∙ ap (λ zs. packed_lines p ++ zs)
              (without_gaps-append before (map render ls)
                ∙ ap (λ zs. zs ++ without_gaps (map render ls))
                    (without_gaps-gap_before adjacent p.pending)
                ∙ without_gaps-render ls))
      | inr e ↦ rw e (
          add_lines-lines f limit ls (close_if (is_nonempty p.pending) p)
          ∙ ap (λ zs. zs ++ map render ls) (close_if-lines (is_nonempty p.pending) p))
    ]

map-append-render : (xs ys : List Line) → map render (xs ++ ys) ≡ map render xs ++ map render ys
map-append-render [] ys = refl
map-append-render (x ∷ xs) ys = ap (λ zs. render x ∷ zs) (map-append-render xs ys)

add_runs-lines :
    (f : DiffFile) (limit : ℕ) (previous : Option ℕ) (rs : List Run) (p : Packing)
    → packed_lines (add_runs f limit previous rs p) ≡ packed_lines p ++ map render (run_lines rs)
unfolding add_runs run_lines
add_runs-lines f limit previous [] p = sym (append-nil (packed_lines p))
add_runs-lines f limit previous (r ∷ rs) p =
    let adjacent = is_adjacent previous r.first in
    add_runs-lines f limit (or_previous r.last previous) rs (add_run f limit adjacent r.lines p)
    ∙ ap (λ zs. zs ++ map render (run_lines rs)) (add_run-lines f limit adjacent r.lines p)
    ∙ append_assoc (packed_lines p) (map render r.lines) (map render (run_lines rs))
    ∙ ap (λ zs. packed_lines p ++ zs) (sym (map-append-render r.lines (run_lines rs)))

close-pending :
    (chunks : List (List Text)) (pending : List Text)
    → without_gaps (concat (close (record { chunks = chunks; pending = pending })))
      ≡ without_gaps (concat chunks ++ pending)
unfolding concat
close-pending chunks [] = ap without_gaps (sym (append-nil (concat chunks)))
close-pending chunks (t ∷ ts) =
    ap without_gaps
      (concat-append chunks ((t ∷ ts) ∷ []) ∙ ap (λ zs. concat chunks ++ zs) (append-nil (t ∷ ts)))

close-lines : (p : Packing) → without_gaps (concat (close p)) ≡ packed_lines p
close-lines p = close-pending p.chunks p.pending

chunks_of-lines :
    (f : DiffFile) (limit : ℕ) (rs : List Run)
    → is_nonempty rs ≡ true
    → without_gaps (concat (chunks_of f limit rs)) ≡ map render (run_lines rs)
unfolding chunks_of run_lines concat
chunks_of-lines f limit [] h = cc h
chunks_of-lines f limit (r ∷ rs) h =
    let start : Packing = record { chunks = []; pending = [] } in
    close-lines (add_runs f limit none (r ∷ rs) start) ∙ add_runs-lines f limit none (r ∷ rs) start

-- The chunks of a file that has some run show the rendered lines of its runs, each once and in
-- order, and beside them only gap marks.
pub file_chunks-lines :
    (f : DiffFile) (limit : ℕ)
    → is_nonempty (segments f) ≡ true
    → without_gaps (concat (file_chunks f limit)) ≡ map render (run_lines (segments f))
unfolding file_chunks
file_chunks-lines f limit h = chunks_of-lines f limit (segments f) h
