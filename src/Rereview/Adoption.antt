-- ===== src/Rereview/Adoption.antt =====
-- Adopted identities (`adopt_identities` of reviewer/publish/rereview.py).
use code_reviewer.Prelude.{
  ℕ, String, ◌≡◌, refl, sym, ap, ◌∙◌, inl, inr, Bool, false, List, [], ◌∷◌, map, arith, Bool-cases,
  any,
}
use code_reviewer.Prelude.Text.{str_eq, eq_of_str_eq}
use code_reviewer.Store.Rows.{update_first}
use code_reviewer.Findings.Models.{Finding}
use code_reviewer.Findings.Validation.{Worktree}
use code_reviewer.Rereview.{
  adopt_one, adopt_identities, adopt_all, reanchor, rename, expected, takes_over, changed_file,
}
use code_reviewer.Context.Diff.{DiffFile}

-- Some finding of the list has the fingerprint.
abbrev pub has_fingerprint : String → List Finding → Bool
has_fingerprint fingerprint fs = any (λ f. str_eq f.fingerprint fingerprint) fs

abbrev pub Distinct : List Finding → Type 0
Distinct [] = Unit
Distinct (f ∷ fs) = (has_fingerprint f.fingerprint fs ≡ false) × Distinct fs

str_neq_sym : (a b : String) → str_eq a b ≡ false → str_eq b a ≡ false
str_neq_sym a b h = elim (Bool-cases (str_eq b a)) [
  | inl e ↦
      ap (λ c. str_eq c a) (eq_of_str_eq b a e)
      ∙ ap (λ c. str_eq a c) (sym (eq_of_str_eq b a e))
      ∙ h
  | inr e ↦ e
]

absent-update_first :
    (p : Finding → Bool) (k x : String) (fs : List Finding)
    → str_eq k x ≡ false
    → has_fingerprint x fs ≡ false
    → has_fingerprint x (update_first p (rename k) fs) ≡ false
unfolding update_first
absent-update_first p k x [] apart h = refl
absent-update_first p k x (f ∷ fs) apart h = elim (Bool-cases (p f)) [
  | inl e ↦ rw e (ground (arith, apart, h))
  | inr e ↦ rw e (ground (arith, h, absent-update_first p k x fs apart))
]

Distinct-update_first :
    (p : Finding → Bool) (k : String) (fs : List Finding)
    → has_fingerprint k fs ≡ false
    → Distinct fs
    → Distinct (update_first p (rename k) fs)
unfolding update_first
Distinct-update_first p k [] h d = tt
Distinct-update_first p k (f ∷ fs) h d = elim (Bool-cases (p f)) [
  | inl e ↦ rw e (ground (arith, h), d.1)
  | inr e ↦ rw e (
    absent-update_first p k f.fingerprint fs (str_neq_sym f.fingerprint k (ground (arith, h))) d.0,
    Distinct-update_first p k fs (ground (arith, h)) d.1,
  )
]

adopt_all-Distinct :
    (known : List String) (tolerance : ℕ) (w : Worktree) (delta : List DiffFile)
    → (previous findings : List Finding) → Distinct findings
    → Distinct (adopt_all known tolerance w delta previous findings)
unfolding adopt_all adopt_one
adopt_all-Distinct known tolerance w delta [] findings d = d
adopt_all-Distinct known tolerance w delta (old ∷ olds) findings d =
    elim (Bool-cases (has_fingerprint old.fingerprint findings)) [
      | inl e ↦ rw e (adopt_all-Distinct known tolerance w delta olds findings d)
      | inr e ↦ rw e (
          adopt_all-Distinct known tolerance w delta olds
            (adopt_one known tolerance w delta old findings)
            (Distinct-update_first
              (takes_over known old
                (expected old (changed_file old.anchor.file delta) (reanchor w old)) tolerance)
              old.fingerprint findings e d))
    ]

-- Fresh findings with distinct fingerprints have distinct ones after adoption: no identity is
-- given to two findings.
pub adopt_identities-Distinct :
    (findings previous : List Finding) (w : Worktree) (delta : List DiffFile) (tolerance : ℕ)
    → Distinct findings
    → Distinct (adopt_identities findings previous w delta tolerance)
unfolding adopt_identities
adopt_identities-Distinct findings previous w delta tolerance d =
    adopt_all-Distinct (map (λ f. f.fingerprint) previous) tolerance w delta previous findings d

-- A finding without its fingerprint.
abbrev pub unnamed : List Finding → List Finding
unnamed fs = map (rename "") fs

unnamed-update_first :
    (p : Finding → Bool) (k : String) (fs : List Finding)
    → unnamed (update_first p (rename k) fs) ≡ unnamed fs
unfolding update_first
unnamed-update_first p k [] = refl
unnamed-update_first p k (f ∷ fs) = elim (Bool-cases (p f)) [
  | inl e ↦ rw e refl
  | inr e ↦ rw e (ap (λ gs. rename "" f ∷ gs) (unnamed-update_first p k fs))
]

adopt_all-unnamed :
    (known : List String) (tolerance : ℕ) (w : Worktree) (delta : List DiffFile)
    → (previous findings : List Finding)
    → unnamed (adopt_all known tolerance w delta previous findings) ≡ unnamed findings
unfolding adopt_all adopt_one
adopt_all-unnamed known tolerance w delta [] findings = refl
adopt_all-unnamed known tolerance w delta (old ∷ olds) findings =
    elim (Bool-cases (has_fingerprint old.fingerprint findings)) [
      | inl e ↦ rw e (adopt_all-unnamed known tolerance w delta olds findings)
      | inr e ↦ rw e (
          adopt_all-unnamed known tolerance w delta olds
            (adopt_one known tolerance w delta old findings)
          ∙ unnamed-update_first
              (takes_over known old
                (expected old (changed_file old.anchor.file delta) (reanchor w old)) tolerance)
              old.fingerprint findings)
    ]

-- Adoption changes nothing of a finding but its fingerprint, and keeps the order.
pub adopt_identities-unnamed :
    (findings previous : List Finding) (w : Worktree) (delta : List DiffFile) (tolerance : ℕ)
    → unnamed (adopt_identities findings previous w delta tolerance) ≡ unnamed findings
unfolding adopt_identities
adopt_identities-unnamed findings previous w delta tolerance =
    adopt_all-unnamed (map (λ f. f.fingerprint) previous) tolerance w delta previous findings
