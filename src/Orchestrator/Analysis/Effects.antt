-- ===== src/Orchestrator/Analysis/Effects.antt =====
-- What verification changes of a finding, and lists of findings by their ids
-- (reviewer/orchestrator/verification.py and pipeline.py).
use code_reviewer.Prelude.{
  ℕ, zero, suc, ◌≤◌, ◌≡◌, refl, ap, ◌∙◌, inl, inr, Bool, true, false, not, ◌&&◌, ◌||◌, Option, none,
  some, List, [], ◌∷◌, arith, Bool-cases, length, any, select_if, All, take, drop, All-map,
}
use code_reviewer.Prelude.Text.{str_eq, str_eq_refl}
use code_reviewer.Prelude.Sorting.{sort_by, insert_by}
use code_reviewer.Findings.Models.{Status, Finding, VerificationResult}
use code_reviewer.Orchestrator.Verification.{
  status_of, admitted, unavailable_result, Verifier, verify_finding, is_left, scanned, one,
  Verdicted, ruled, raised, Failure,
}
use code_reviewer.Orchestrator.Analysis.{mem_ids}

-- Verification leaves a finding that needs none, and gives every other a verdict, and a status.
pub data Effect (f : Finding) : Finding → Type 0 where
  unchanged : is_left f ≡ true → Effect f f
  given :
      (w : VerificationResult) (status : Status)
      → Effect f (record f { verification = some w; status = status })

one-Effect : (f : Finding) (a : Verdicted) → Effect f (one f a).0
one-Effect f (ruled v a b) = given (admitted f v a b) (status_of (admitted f v a b).verdict)
one-Effect f (raised e) = given unavailable_result f.status

scanned-Effect : (v : Verifier) (f : Finding) (o : Option Failure) → Effect f (scanned v f o).0
scanned-Effect v f none = one-Effect f (v.verify f)
scanned-Effect v f (some e) = given unavailable_result f.status

pub verify_finding-Effect : (v : Verifier) (f : Finding) → Effect f (verify_finding v f).0
unfolding verify_finding
verify_finding-Effect v f = elim (Bool-cases (is_left f)) [
  | inl x ↦ rw x (unchanged x)
  | inr x ↦ rw x (scanned-Effect v f (v.scan f))
]

any-weaker {ℓ} :
    {A : Type ℓ} (p : A → Bool) (q : A → Bool) (x : A) (xs : List A)
    → any q (select_if p xs) ≡ true
    → any q (select_if p (x ∷ xs)) ≡ true
any-weaker p q x xs h = elim (Bool-cases (p x)) [
  | inl e ↦ rw e (ground (arith, h))
  | inr e ↦ rw e h
]

-- A finding that passes the test is among those that pass it.
pub select_if-members :
    (p : Finding → Bool) (xs : List Finding)
    → All (λ f. (not (p f) || mem_ids (select_if p xs) f) ≡ true) xs
select_if-members p [] = tt
select_if-members p (x ∷ xs) = (
  elim (Bool-cases (p x)) [ inl e ↦ rw e (ground (arith, str_eq_refl x.id)) | inr e ↦ rw e refl ],
  All-map (λ f. (not (p f) || mem_ids (select_if p xs) f) ≡ true)
      (λ f. (not (p f) || mem_ids (select_if p (x ∷ xs)) f) ≡ true) xs
      (λ f h. elim (Bool-cases (p f)) [
        | inl e ↦ rw e (any-weaker p (λ g. str_eq g.id f.id) x xs (ground (arith, e, h)))
        | inr e ↦ rw e refl
      ])
      (select_if-members p xs),
)

module _ {ℓ} {A : Type ℓ} (le : A → A → Bool) (q : A → Bool) where
  any-insert_by : (x : A) (xs : List A) → any q (insert_by le x xs) ≡ (q x || any q xs)
  unfolding insert_by
  any-insert_by x [] = refl
  any-insert_by x (y ∷ ys) = elim (Bool-cases (le x y)) [
    | inl e ↦ rw e refl
    | inr e ↦ rw e (ground (arith, any-insert_by x ys))
  ]

  pub any-sort_by : (xs : List A) → any q (sort_by le xs) ≡ any q xs
  unfolding sort_by
  any-sort_by [] = refl
  any-sort_by (x ∷ xs) = any-insert_by x (sort_by le xs) ∙ ap (λ b. q x || b) (any-sort_by xs)

  counted-insert_by :
      (x : A) (xs : List A)
      → length (select_if q (insert_by le x xs)) ≡ length (select_if q (x ∷ xs))
  unfolding insert_by
  counted-insert_by x [] = refl
  counted-insert_by x (y ∷ ys) = elim (Bool-cases (le x y)) [
    | inl e ↦ rw e refl
    | inr e ↦ rw e (ground (arith, counted-insert_by x ys))
  ]

  -- Sorting keeps the number of items that pass a test.
  pub counted-sort_by :
      (xs : List A) → length (select_if q (sort_by le xs)) ≡ length (select_if q xs)
  unfolding sort_by
  counted-sort_by [] = refl
  counted-sort_by (x ∷ xs) =
      counted-insert_by x (sort_by le xs) ∙ ground (arith, counted-sort_by xs)

module _ {ℓ} {A : Type ℓ} where
  pub any-take :
      (q : A → Bool) (n : ℕ) (xs : List A) → any q xs ≡ (any q (take n xs) || any q (drop n xs))
  any-take q zero xs = refl
  any-take q (suc n) [] = refl
  any-take q (suc n) (x ∷ xs) = ground (arith, any-take q n xs)

  pub counted-drop :
      (q : A → Bool) (n : ℕ) (xs : List A)
      → All (λ x. q x ≡ false) (drop n xs)
      → length (select_if q xs) ≤ n
  counted-drop q n [] h = omega arith
  counted-drop q zero (x ∷ xs) h = rw h.0 (counted-drop q zero xs h.1)
  counted-drop q (suc n) (x ∷ xs) h = ground (arith, counted-drop q n xs h)

  pub counted-and :
      (p q : A → Bool) (xs : List A) → select_if (λ x. p x && q x) xs ≡ select_if q (select_if p xs)
  counted-and p q [] = refl
  counted-and p q (x ∷ xs) = elim (Bool-cases (p x)) [
    | inl e ↦ elim (Bool-cases (q x)) [
      | inl d ↦ rw (e, d) (ap (λ ys. x ∷ ys) (counted-and p q xs))
      | inr d ↦ rw (e, d) (counted-and p q xs)
    ]
    | inr e ↦ rw e (counted-and p q xs)
  ]
