-- ===== src/Findings/Selection/Limits.antt =====
-- The limits that the selection keeps (reviewer/findings/noise.py).
use code_reviewer.Prelude.{
  ℕ, suc, ◌+◌, ◌≤◌, min, String, ◌≡◌, refl, inl, inr, Bool, true, not, some, List, [], ◌∷◌, ◌++◌,
  arith, if◌then◌else◌, Option-cases, length, all, select_if, length-append, all-append,
}
use code_reviewer.Prelude.Text.{str_eq}
use text.Mathlib.TextEquality.{eq_iff}
use code_reviewer.Findings.Selection.{
  no_selection, not_after, select, visit_all, candidates, Counter, count_of, add_one, Candidate,
  Selection, visit,
}
use code_reviewer.Findings.Models.{is_closed, Finding}
use code_reviewer.Prelude.Sorting.{length-sort_by, sort_by}

-- How much a counter counts in all.
abbrev pub total : Counter → ℕ
total [] = 0
total ((k, n) ∷ c) = n + total c

total-add_one : (k : String) (c : Counter) → total (add_one k c) ≡ suc (total c)
unfolding add_one
total-add_one k [] = refl
total-add_one k ((j, n) ∷ c) = ground (arith, total-add_one k c)

pub count_of-add_one :
    (k j : String) (c : Counter)
    → count_of j (add_one k c) ≡ (if str_eq k j then count_of j c + 1 else count_of j c)
unfolding add_one count_of
count_of-add_one k j [] = ground arith
count_of-add_one k j ((i, n) ∷ c) =
    ground (arith, eq_iff k j, eq_iff i k, eq_iff i j, count_of-add_one k j c)

abbrev pub shown : Selection → ℕ
shown s = length s.inline + length s.summary + total s.overflow

shown-visit : (m n : ℕ) (c : Candidate) (s : Selection) → shown (visit m n c s) ≡ suc (shown s)
unfolding visit
shown-visit m n c s = ground (
  arith,
  total-add_one c.finding.category s.overflow,
  length-append {0} s.inline (c.finding ∷ []),
  length-append {0} s.summary (c.finding ∷ []),
)

shown-visit_all :
    (m n : ℕ) (cs : List Candidate) (s : Selection)
    → shown (visit_all m n cs s) ≡ length cs + shown s
unfolding visit_all
shown-visit_all m n [] s = omega arith
shown-visit_all m n (c ∷ cs) s =
    omega (arith, shown-visit m n c s, shown-visit_all m n cs (visit m n c s))

abbrev pub is_open : Finding → Bool
is_open f = not (is_closed f.status)

length-candidates :
    (fs : List Finding) (cs : List Candidate)
    → candidates fs ≡ some cs
    → length cs ≡ length (select_if is_open fs)
unfolding candidates
length-candidates [] cs h = ground arith
length-candidates (f ∷ fs) cs h = elim (Option-cases (candidates fs)) [
  | inl e ↦ ground arith
  | inr (ds, e) ↦ ground (arith, length-candidates fs ds e)
]

-- What a property of the loop's variables needs to hold at the end: every step keeps it.
visit_all-keeps :
    (P : Selection → Type 0) (m n : ℕ) (cs : List Candidate) (s : Selection)
    → ((c : Candidate) (t : Selection) → P t → P (visit m n c t))
    → P s
    → P (visit_all m n cs s)
unfolding visit_all
visit_all-keeps P m n [] s keep p = p
visit_all-keeps P m n (c ∷ cs) s keep p = visit_all-keeps P m n cs (visit m n c s) keep (keep c s p)

-- How many findings of a list stand in one file, and how many are about old code.
abbrev pub in_file : String → List Finding → ℕ
in_file p fs = length (select_if (λ f. str_eq f.anchor.file p) fs)

abbrev pub pre_existing : List Finding → ℕ
pre_existing fs = length (select_if (λ f. not f.anchor.introduced_by_this_change) fs)

pub select_if-append {ℓ} :
    {A : Type ℓ} (p : A → Bool) (xs ys : List A)
    → length (select_if p (xs ++ ys)) ≡ length (select_if p xs) + length (select_if p ys)
select_if-append p [] ys = omega arith
select_if-append p (x ∷ xs) ys = ground (arith, select_if-append p xs ys)

-- The invariant of the loop but for the part that speaks of each file.
record Bounded (m : ℕ) (s : Selection) : Type 0 where
  inline_capped : length s.inline ≤ min 15 m
  old_capped : s.existing ≤ 2
  old_counted : pre_existing s.inline + pre_existing s.summary ≤ s.existing

visit-Bounded : (m n : ℕ) (c : Candidate) (s : Selection) → Bounded m s → Bounded m (visit m n c s)
unfolding visit
visit-Bounded m n c s b = ground (
  arith,
  length-append {0} s.inline (c.finding ∷ []),
  select_if-append (λ f. not f.anchor.introduced_by_this_change) s.inline (c.finding ∷ []),
  select_if-append (λ f. not f.anchor.introduced_by_this_change) s.summary (c.finding ∷ []),
)

record FileBounded (n : ℕ) (p : String) (s : Selection) : Type 0 where
  counted : count_of p s.per_file ≡ in_file p s.inline
  file_capped : in_file p s.inline ≤ min 5 n

visit-FileBounded :
    (m n : ℕ) (p : String) (c : Candidate) (s : Selection)
    → FileBounded n p s
    → FileBounded n p (visit m n c s)
unfolding visit
visit-FileBounded m n p c s b = ground (
  arith,
  select_if-append (λ f. str_eq f.anchor.file p) s.inline (c.finding ∷ []),
  count_of-add_one c.finding.anchor.file p s.per_file,
  eq_iff c.finding.anchor.file p,
)

abbrev pub all_in_diff : List Finding → Bool
all_in_diff fs = all (λ f. f.anchor.in_diff) fs

visit_in_diff :
    (m n : ℕ) (c : Candidate) (s : Selection)
    → all_in_diff s.inline ≡ true
    → all_in_diff (visit m n c s).inline ≡ true
unfolding visit
visit_in_diff m n c s h =
    ground (arith, all-append (λ f. f.anchor.in_diff) s.inline (c.finding ∷ []))

-- The end of the loop over the sorted candidates, from the result of `select`.
module _ (findings : List Finding) (m n : ℕ) (s : Selection)
    (h : select findings m n ≡ some s) where
  -- The candidates whose visit gives the selection.
  select_of_candidates :
      (cs : List Candidate) × (candidates findings ≡ some cs)
      × (s ≡ visit_all m n (sort_by not_after cs) no_selection)
  unfolding select
  select_of_candidates = elim (Option-cases (candidates findings)) [
    | inl e ↦ ground arith
    | inr (cs, e) ↦ (cs, e, ground arith)
  ]

  -- Where select does not raise, every open finding is shown inline, listed in the summary or
  -- counted in the overflow: the three numbers add up to the number of open findings.
  pub select_conserves :
      length s.inline + length s.summary + total s.overflow ≡ length (select_if is_open findings)
  select_conserves =
      let (cs, e, visited) = select_of_candidates in
      rw visited (
        omega (
          arith,
          shown-visit_all m n (sort_by not_after cs) no_selection,
          length-sort_by not_after cs,
          length-candidates findings cs e,
        ))

  -- Where select does not raise, at most min(15, max_inline) findings are shown inline, all of
  -- them on lines of the diff, and at most two findings about code that the change did not
  -- introduce are shown or listed.
  pub select_bounds :
      (length s.inline ≤ min 15 m)
      × (all_in_diff s.inline ≡ true)
      × (pre_existing s.inline + pre_existing s.summary ≤ 2)
  select_bounds =
      let (cs, e, visited) = select_of_candidates in
      let sorted = sort_by not_after cs in
      let b =
        visit_all-keeps (Bounded m) m n sorted no_selection (visit-Bounded m n) (omega arith) in
      let d =
        visit_all-keeps (λ t. all_in_diff t.inline ≡ true) m n sorted no_selection
          (visit_in_diff m n) refl in
      rw visited (b.inline_capped, d, omega (arith, b))

  -- Where select does not raise, at most min(5, max_per_file) findings are shown inline in any one
  -- file.
  pub select_file_bound : (p : String) → in_file p s.inline ≤ min 5 n
  select_file_bound p =
      let (cs, e, visited) = select_of_candidates in
      rw visited
        (visit_all-keeps (FileBounded n p) m n (sort_by not_after cs) no_selection
          (visit-FileBounded m n p) (unfold count_of in omega arith)).file_capped
