-- ===== src/Rereview/Laws.antt =====
-- What re-review keeps (reviewer/publish/rereview.py).
use code_reviewer.Prelude.{
  ℕ, zero, suc, ◌+◌, ◌-◌, ◌≤◌, ◌<◌, String, ◌≡◌, refl, sym, ap, ◌∙◌, inl, inr, true, Option, none,
  some, List, [], ◌∷◌, arith, ◌==◌, Bool-cases, length, take, drop, eq_of_some,
}
use code_reviewer.Prelude.Text.{Text, str_eq}
use mathlib.Core.Path.{subst}
use code_reviewer.Findings.Models.{Finding}
use code_reviewer.Findings.Validation.{valid_range, slice, Worktree}
use code_reviewer.Rereview.{
  window_length, reanchor_in, reanchor, anchored_at, find_window, anchoring, Anchoring, unchanged,
  moved,
}

-- The finding that a re-anchoring keeps.
abbrev pub kept : Anchoring → Option Finding
kept (unchanged f) = some f
kept (moved f) = some f
kept _ = none

none≢some {ℓ} : {A : Type ℓ} {a : A} → ¬ (none ≡ some a)
none≢some = λ h. ground (arith, h)

kept-anchoring :
    (f g : Finding) (o : Option ℕ)
    → kept (anchoring f o) ≡ some g
    → (k : ℕ) × (o ≡ some k) × (anchored_at f k ≡ g)
kept-anchoring f g none = λ h. elim (none≢some h) [ ]
kept-anchoring f g (some k) = elim (Bool-cases (k + 1 == f.anchor.line_start)) [
  | inl e ↦ rw e (λ h. (k, refl, eq_of_some (anchored_at f k) g h))
  | inr e ↦ rw e (λ h. (k, refl, eq_of_some (anchored_at f k) g h))
]

drop_nil {ℓ} : {A : Type ℓ} (n : ℕ) → drop {A = A} n [] ≡ []
drop_nil zero = refl
drop_nil (suc n) = refl

drop-drop {ℓ} : {A : Type ℓ} (i : ℕ) (xs : List A) → drop i (drop 1 xs) ≡ drop (suc i) xs
drop-drop i [] = drop_nil i
drop-drop i (x ∷ xs) = refl

take_nil {ℓ} : {A : Type ℓ} (n : ℕ) → take {A = A} n [] ≡ []
take_nil zero = refl
take_nil (suc n) = refl

drop-take {ℓ} :
    {A : Type ℓ} (i n m : ℕ) (xs : List A) → m ≡ i + n → drop i (take m xs) ≡ take n (drop i xs)
drop-take zero n m xs h = let same : m ≡ n = omega (arith, h) in ap (λ k. take k xs) same
drop-take (suc i) n zero xs h = ground (arith, h)
drop-take (suc i) n (suc m) [] h = sym (take_nil n)
drop-take (suc i) n (suc m) (x ∷ xs) h = drop-take i n m xs (omega (arith, h))

-- The window that is found has the hash, and is one of the offsets that were tried.
find_window_sound :
    (w : Worktree) (hash : String) (len count offset k : ℕ) (lines : List Text)
    → find_window w hash len count offset lines ≡ some k
    → (i : ℕ) × (k ≡ offset + i)
      × (i < count)
      × (str_eq (w.sha256_of (take len (drop i lines))) hash ≡ true)
unfolding find_window
find_window_sound w hash len zero offset k lines = λ h. elim (none≢some h) [ ]
find_window_sound w hash len (suc count) offset k lines =
    elim (Bool-cases (str_eq (w.sha256_of (take len lines)) hash)) [
      | inl e ↦ rw e (λ h. (0, sym (eq_of_some offset k h) ∙ omega arith, omega arith, e))
      | inr e ↦ rw e (λ h.
          let (i, at, low, same) =
            find_window_sound w hash len count (suc offset) k (drop 1 lines) h in
          (
            suc i,
            omega (arith, at),
            omega (arith, low),
            subst (λ ls. str_eq (w.sha256_of (take len ls)) hash ≡ true) (drop-drop i lines) same,
          ))
    ]

-- The lines of the anchor that `anchored_at` sets are the window at its offset.
window-lines :
    (lines : List Text) (len k : ℕ) → slice (some lines) (k + 1) (k + len) ≡ take len (drop k lines)
window-lines lines len k =
    let before : k + 1 - 1 ≡ k = omega arith in
    ap (λ n. drop n (take (k + len) lines)) before ∙ drop-take k len (k + len) lines refl

reanchor_in_sound :
    (w : Worktree) (f g : Finding) (o : Option (List Text))
    → f.anchor.line_start ≤ f.anchor.line_end
    → kept (reanchor_in w f o) ≡ some g
    → (valid_range o g.anchor.line_start g.anchor.line_end ≡ true)
      × (str_eq (w.sha256_of (slice o g.anchor.line_start g.anchor.line_end)) f.anchor.context_hash
          ≡ true)
unfolding reanchor_in valid_range
reanchor_in_sound w f g none range h = elim (none≢some h) [ ]
reanchor_in_sound w f g (some lines) range h =
    let len = window_length f.anchor in
    let count = length lines + 1 - len in
    let hash = f.anchor.context_hash in
    let (k, found, same) = kept-anchoring f g (find_window w hash len count 0 lines) h in
    let (i, at, low, holds) = find_window_sound w hash len count 0 k lines found in
    let here : i ≡ k = omega (arith, at) in
    subst
      (λ (g : Finding).
        (valid_range (some lines) g.anchor.line_start g.anchor.line_end ≡ true)
        × (str_eq (w.sha256_of (slice (some lines) g.anchor.line_start g.anchor.line_end)) hash
            ≡ true))
      same
      (
        ground (arith, low, here, range),
        ap (λ ls. str_eq (w.sha256_of ls) hash) (window-lines lines len k)
            ∙ ap (λ n. str_eq (w.sha256_of (take len (drop n lines))) hash) (sym here)
            ∙ holds,
      )

-- A finding whose anchor is a range, and that re-anchoring keeps, is at a range of lines of its
-- file in the new tree whose hash is the one it was published with.
pub reanchor_sound :
    (w : Worktree) (f g : Finding)
    → f.anchor.line_start ≤ f.anchor.line_end
    → kept (reanchor w f) ≡ some g
    → let lines = w.read_lines f.anchor.file in
      (valid_range lines g.anchor.line_start g.anchor.line_end ≡ true)
      × (str_eq
            (w.sha256_of (slice lines g.anchor.line_start g.anchor.line_end))
            f.anchor.context_hash
          ≡ true)
unfolding reanchor
reanchor_sound w f g range h = reanchor_in_sound w f g (w.read_lines f.anchor.file) range h
