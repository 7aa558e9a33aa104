-- ===== src/Findings/Dedup/Laws.antt =====
-- Laws of deduplication: evidence, severities and the test between the findings that are left
-- (reviewer/findings/dedup.py).
use code_reviewer.Prelude.{
  ℕ, ◌≡◌, refl, ◌∙◌, inl, inr, Bool, true, false, not, ◌||◌, List, [], ◌∷◌, arith, ltb, leb,
  if◌then◌else◌, Bool-cases, any, select_if, All, any-append,
}
use text.Mathlib.TextEquality.{eq_iff}
use code_reviewer.Findings.Models.{Severity, order, Evidence, Finding}
use code_reviewer.Findings.Dedup.{
  same_evidence, combine, absorb, absorb_all, related, deduplicate, same_fingerprint, Unicode,
}

-- No earlier finding of the list passes the test with a later one.
abbrev pub Apart : (Finding → Finding → Bool) → List Finding → Type 0
Apart same [] = Unit
Apart same (x ∷ xs) = All (λ y. same x y ≡ false) xs × Apart same xs

-- The test reads nothing that `combine` changes.
record Stable (same : Finding → Finding → Bool) : Type 0 where
  left : (x f y : Finding) → same (combine x f) y ≡ same x y
  right : (x f y : Finding) → same y (combine x f) ≡ same y x

related-Stable : (u : Unicode) (distance : ℕ) → Stable (related u distance)
unfolding related combine
related-Stable u distance = record { left = λ x f y. refl; right = λ x f y. refl }

same_fingerprint-Stable : Stable same_fingerprint
unfolding combine
same_fingerprint-Stable = record { left = λ x f y. refl; right = λ x f y. refl }

module _ (same : Finding → Finding → Bool) (stable : Stable same) where
  -- A kept finding that is apart from `f` and from the rest stays apart after `f` is absorbed.
  All-absorb :
      (test : Finding → Finding → Bool) (x f : Finding) (xs : List Finding)
      → ((y g : Finding) → test x (combine y g) ≡ test x y)
      → test x f ≡ false
      → All (λ y. test x y ≡ false) xs
      → All (λ y. test x y ≡ false) (absorb same f xs)
  unfolding absorb
  All-absorb test x f [] keeps e h = (e, tt)
  All-absorb test x f (y ∷ ys) keeps e h = elim (Bool-cases (same y f)) [
    | inl s ↦ rw s (keeps y f ∙ h.0, h.1)
    | inr s ↦ rw s (h.0, All-absorb test x f ys keeps e h.1)
  ]

  All-left :
      (x f : Finding) (xs : List Finding)
      → All (λ y. same x y ≡ false) xs
      → All (λ y. same (combine x f) y ≡ false) xs
  All-left x f [] h = tt
  All-left x f (y ∷ ys) h = (stable.left x f y ∙ h.0, All-left x f ys h.1)

  absorb-Apart : (f : Finding) (xs : List Finding) → Apart same xs → Apart same (absorb same f xs)
  unfolding absorb
  absorb-Apart f [] h = (tt, tt)
  absorb-Apart f (x ∷ xs) h = elim (Bool-cases (same x f)) [
    | inl s ↦ rw s (All-left x f xs h.0, h.1)
    | inr s ↦ rw s (All-absorb same x f xs (λ y g. stable.right y g x) s h.0, absorb-Apart f xs h.1)
  ]

  absorb_all-Apart :
      (kept fs : List Finding) → Apart same kept → Apart same (absorb_all same kept fs)
  unfolding absorb_all
  absorb_all-Apart kept [] h = h
  absorb_all-Apart kept (f ∷ fs) h =
      absorb_all-Apart (absorb same f kept) fs (absorb-Apart f kept h)

-- No two findings of deduplicate's result are related: none that stands first would have absorbed
-- another.
pub deduplicate-Apart :
    (u : Unicode) (distance : ℕ) (findings : List Finding)
    → Apart (related u distance) (deduplicate u distance findings)
unfolding deduplicate
deduplicate-Apart u distance findings =
    absorb_all-Apart (related u distance) (related-Stable u distance) []
      (absorb_all same_fingerprint [] findings) tt

-- Whether a finding, and whether some finding of a list, cites a passage.
abbrev pub cites : Evidence → Finding → Bool
cites e f = any (λ x. same_evidence x e) f.evidence

abbrev pub cited : Evidence → List Finding → Bool
cited e fs = any (cites e) fs

same_evidence_trans :
    (a b c : Evidence)
    → same_evidence a b ≡ true
    → same_evidence b c ≡ true
    → same_evidence a c ≡ true
same_evidence_trans a b c h k = ground (
  arith,
  eq_iff a.file b.file,
  eq_iff b.file c.file,
  eq_iff a.file c.file,
  eq_iff a.note b.note,
  eq_iff b.note c.note,
  eq_iff a.note c.note,
)

any-same_evidence :
    (y e : Evidence) (first : List Evidence)
    → any (λ s. same_evidence s y) first ≡ true
    → same_evidence y e ≡ true
    → any (λ s. same_evidence s e) first ≡ true
any-same_evidence y e [] h k = cc
any-same_evidence y e (s ∷ first) h k = elim (Bool-cases (same_evidence s y)) [
  | inl t ↦ rw (same_evidence_trans s y e t k)
  | inr t ↦ ground (arith, any-same_evidence y e first (rw t at h))
]

-- The citations that `combine` adds, and those that it already has, are all of both.
any-added :
    (e : Evidence) (first other : List Evidence)
    → (any (λ s. same_evidence s e) first
        || any
            (λ s. same_evidence s e)
            (select_if (λ y. not (any (λ s. same_evidence s y) first)) other))
      ≡ (any (λ s. same_evidence s e) first || any (λ s. same_evidence s e) other)
any-added e first [] = refl
any-added e first (y ∷ other) = elim (Bool-cases (any (λ s. same_evidence s y) first)) [
  | inl t ↦ rw t (elim (Bool-cases (same_evidence y e)) [
    | inl k ↦ rw (any-same_evidence y e first t k)
    | inr k ↦ rw k (any-added e first other)
  ])
  | inr t ↦ rw t (ground (arith, any-added e first other))
]

cites-combine : (e : Evidence) (x f : Finding) → cites e (combine x f) ≡ (cites e x || cites e f)
unfolding combine
cites-combine e x f =
    any-append (λ s. same_evidence s e) x.evidence
      (select_if (λ y. not (any (λ s. same_evidence s y) x.evidence)) f.evidence)
    ∙ any-added e x.evidence f.evidence

cited-absorb :
    (e : Evidence) (same : Finding → Finding → Bool) (f : Finding) (xs : List Finding)
    → cited e (absorb same f xs) ≡ (cites e f || cited e xs)
unfolding absorb
cited-absorb e same f [] = refl
cited-absorb e same f (x ∷ xs) = elim (Bool-cases (same x f)) [
  | inl s ↦ rw (s, cites-combine e x f) (bool_swap (cites e x) (cites e f) (cited e xs))
  | inr s ↦ rw (s, cited-absorb e same f xs) (bool_rotate (cites e x) (cites e f) (cited e xs))
]
  where
    bool_swap : (a b c : Bool) → ((a || b) || c) ≡ (b || (a || c))
    bool_swap a b c = ground arith

    bool_rotate : (a b c : Bool) → (a || (b || c)) ≡ (b || (a || c))
    bool_rotate a b c = ground arith

cited-absorb_all :
    (e : Evidence) (same : Finding → Finding → Bool) (kept fs : List Finding)
    → cited e (absorb_all same kept fs) ≡ (cited e kept || cited e fs)
unfolding absorb_all
cited-absorb_all e same kept [] = ground arith
cited-absorb_all e same kept (f ∷ fs) =
    ground (arith, cited-absorb_all e same (absorb same f kept) fs, cited-absorb e same f kept)

-- A passage is cited by some finding after deduplication exactly if some finding cited it before.
pub cited-deduplicate :
    (e : Evidence) (u : Unicode) (distance : ℕ) (findings : List Finding)
    → cited e (deduplicate u distance findings) ≡ cited e findings
unfolding deduplicate
cited-deduplicate e u distance findings =
    cited-absorb_all e (related u distance) [] (absorb_all same_fingerprint [] findings)
    ∙ cited-absorb_all e same_fingerprint [] findings

-- Whether some finding is proposed at a severity or a stronger one.
abbrev pub proposed_at : ℕ → List Finding → Bool
proposed_at k fs = any (λ f. leb (order f.severity_proposed) k) fs

proposed-combine :
    (k : ℕ) (x f : Finding)
    → leb (order (combine x f).severity_proposed) k
      ≡ (leb (order f.severity_proposed) k || leb (order x.severity_proposed) k)
unfolding combine
proposed-combine k x f = stronger f.severity_proposed x.severity_proposed
  where
    stronger :
        (a b : Severity)
        → leb (order (if ltb (order a) (order b) then a else b)) k
          ≡ (leb (order a) k || leb (order b) k)
    stronger a b = elim (Bool-cases (ltb (order a) (order b))) [
      | inl e ↦ rw e (ground arith)
      | inr e ↦ rw e (ground arith)
    ]

proposed-absorb :
    (k : ℕ) (same : Finding → Finding → Bool) (f : Finding) (xs : List Finding)
    → proposed_at k (absorb same f xs) ≡ (leb (order f.severity_proposed) k || proposed_at k xs)
unfolding absorb
proposed-absorb k same f [] = refl
proposed-absorb k same f (x ∷ xs) = elim (Bool-cases (same x f)) [
  | inl s ↦
      rw (s, proposed-combine k x f)
        (bool_assoc (leb (order f.severity_proposed) k) (leb (order x.severity_proposed) k)
          (proposed_at k xs))
  | inr s ↦
      rw (s, proposed-absorb k same f xs)
        (bool_rotate (leb (order x.severity_proposed) k) (leb (order f.severity_proposed) k)
          (proposed_at k xs))
]
  where
    bool_assoc : (a b c : Bool) → ((a || b) || c) ≡ (a || (b || c))
    bool_assoc a b c = ground arith

    bool_rotate : (a b c : Bool) → (a || (b || c)) ≡ (b || (a || c))
    bool_rotate a b c = ground arith

proposed-absorb_all :
    (k : ℕ) (same : Finding → Finding → Bool) (kept fs : List Finding)
    → proposed_at k (absorb_all same kept fs) ≡ (proposed_at k kept || proposed_at k fs)
unfolding absorb_all
proposed-absorb_all k same kept [] = ground arith
proposed-absorb_all k same kept (f ∷ fs) =
    ground
      (arith, proposed-absorb_all k same (absorb same f kept) fs, proposed-absorb k same f kept)

-- For each bound, some finding is proposed at that severity or a stronger one after deduplication
-- exactly if one was before.
pub proposed-deduplicate :
    (k : ℕ) (u : Unicode) (distance : ℕ) (findings : List Finding)
    → proposed_at k (deduplicate u distance findings) ≡ proposed_at k findings
unfolding deduplicate
proposed-deduplicate k u distance findings =
    proposed-absorb_all k (related u distance) [] (absorb_all same_fingerprint [] findings)
    ∙ proposed-absorb_all k same_fingerprint [] findings
