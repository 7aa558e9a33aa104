-- ===== src/Findings/Validation/Laws.antt =====
-- What validation guarantees of the fields that code owns (reviewer/findings/validator.py).
use code_reviewer.Prelude.{
  ℕ, ◌≤◌, ◌<◌, String, ◌≡◌, refl, ◌↔◌, inl, inr, Bool, true, false, Option, none, some, List, [],
  ◌∷◌, arith, if◌then◌else◌, Bool-cases, length, any, all, next_of, lt→ltb,
}
use code_reviewer.Prelude.Text.{Text, str_eq, str_mem}
use code_reviewer.Findings.Models.{downgraded, suppressed, Finding, discarded, Status}
use code_reviewer.Findings.Validation.{
  is_added, DiffLine, Worktree, Change, valid_range, validate, evidence_holds, placed, ChangedFile,
  reset, Git, attributed, Anchor, anchor_lines,
}

abbrev pub is_discarded : Status → Bool
is_discarded discarded = true
is_discarded _ = false

suppressed-open :
    (b e : Bool) (s : Status)
    → is_discarded s ≡ false
    → is_discarded (if b then suppressed else (if e then s else downgraded)) ≡ false
suppressed-open true e s h = refl
suppressed-open false true s h = h
suppressed-open false false s h = refl

-- The lines from `start` to `end_line` are lines of the text, counted from 1.
abbrev pub IsLineRange : Option (List Text) → ℕ → ℕ → Type 0
IsLineRange none start end_line = ⊥
IsLineRange (some lines) start end_line =
    (1 ≤ start) × (start ≤ end_line) × (end_line ≤ length lines)

valid_range-IsLineRange :
    (lines : Option (List Text)) (start end_line : ℕ)
    → valid_range lines start end_line ≡ true
    → IsLineRange lines start end_line
unfolding valid_range
valid_range-IsLineRange none start end_line h = absurd (ground (arith, h))
valid_range-IsLineRange (some lines) start end_line h =
    (ground (arith, h), ground (arith, h), ground (arith, h))

IsLineRange-valid_range :
    (lines : Option (List Text)) (start end_line : ℕ)
    → IsLineRange lines start end_line
    → valid_range lines start end_line ≡ true
unfolding valid_range
IsLineRange-valid_range none start end_line h = absurd h
IsLineRange-valid_range (some lines) start end_line (a, b, c) = ground (arith, a, b, c)

-- A finding that was not discarded leaves validation not discarded exactly if its anchor is a
-- range of lines of a readable file: it starts at line 1 or later, it ends where it starts or
-- later, and it ends within the file.
pub validate-discarded_iff :
    (w : Worktree) (c : Change) (known : List String) (f : Finding)
    → is_discarded f.status ≡ false
    → (is_discarded (validate w c known f).status ≡ false)
      ↔ IsLineRange (w.read_lines f.anchor.file) f.anchor.line_start f.anchor.line_end
unfolding validate
validate-discarded_iff w c known f h =
    let lines = w.read_lines f.anchor.file in
    let a = f.anchor in
    elim (Bool-cases (valid_range lines a.line_start a.line_end)) [
      | inl e ↦ (
        λ k. valid_range-IsLineRange lines a.line_start a.line_end e,
        λ k. rw e (
            suppressed-open (str_mem f.fingerprint known) (all (evidence_holds w) f.evidence)
              f.status h),
      )
      | inr e ↦ (
        λ k. absurd (ground (arith, (rw e at k))),
        λ k. absurd (ground (arith, e, IsLineRange-valid_range lines a.line_start a.line_end k)),
      )
    ]

any-added : (lines : List DiffLine) → any (λ l. is_added l.kind) lines ≡ true → 0 < length lines
any-added [] h = ground arith
any-added (l ∷ lines) h = ground arith

attributed-any : (g : Option Git) (a : Anchor) (b : Bool) → attributed g a b ≡ true → b ≡ true
attributed-any none a b h = h
attributed-any (some g) a true h = refl
attributed-any (some g) a false h = h

placed-introduced :
    (w : Worktree) (a : Anchor) (f : Option ChangedFile)
    → (placed w a f).1 ≡ true
    → (placed w a f).0 ≡ true
unfolding anchor_lines
placed-introduced w a none h = h
placed-introduced w a (some f) h = lt→ltb 0 (length (anchor_lines f a)) (
    any-added (anchor_lines f a)
      (attributed-any w.git a (any (λ l. is_added l.kind) (anchor_lines f a)) h))

-- A finding that counts as introduced by the change after validation lies in the diff.
pub validate-introduced_in_diff :
    (w : Worktree) (c : Change) (known : List String) (f : Finding)
    → (validate w c known f).anchor.introduced_by_this_change ≡ true
    → (validate w c known f).anchor.in_diff ≡ true
unfolding validate
validate-introduced_in_diff w c known f =
    elim (Bool-cases
      (valid_range (w.read_lines f.anchor.file) f.anchor.line_start f.anchor.line_end)) [
        | inl e ↦ rw e (
            placed-introduced w (reset c f.anchor)
              (next_of (λ g. str_eq g.path f.anchor.file) c.files))
        | inr e ↦ rw e (λ h. h)
      ]
