-- ===== src/Findings/Pages/Laws.antt =====
-- Laws of the severity policy and the validation of page findings (reviewer/findings/document.py).
use code_reviewer.Prelude.{
  String, ◌≡◌, refl, sym, ◌∙◌, ◌⊎◌, inl, inr, Bool, true, false, not, ◌&&◌, ◌||◌, Option, none,
  some, List, [], ◌∷◌, ◌++◌, arith, ◌==◌, Bool-cases, length, select_if, next_of, eq_of_some,
}
use code_reviewer.Prelude.Text.{text_eq, str_eq}
use code_reviewer.Findings.Models.{◌is◌, Severity, blocker, required, is_low, evidence_invalid}
use mathlib.Core.Bool.{false≢true}
use mathlib.Core.Path.{subst}
use code_reviewer.Findings.Pages.{
  Passage, tried, locate_related, locate, is_listed, validate_in, squash, occurs, base?, Section,
  or_suggestion, Corpus, DocumentFinding, needs_verification, normalize, validate, capped,
  is_closed, is_verified,
}
use code_reviewer.Findings.Dedup.{Unicode}

-- The severity is set, and is the given one.
abbrev pub is_final : Severity → Option Severity → Bool
is_final s none = false
is_final s (some t) = t is s

capped-not_blocker : (s : Severity) (doubted : Bool) → (capped s doubted is blocker) ≡ false
capped-not_blocker s doubted = ground arith

capped-required :
    (s : Severity) (doubted : Bool)
    → (capped s doubted is required) ≡ ((s is required) && not doubted)
capped-required s doubted = ground arith

required-needs_verification :
    (f : DocumentFinding)
    → (or_suggestion (base? f.category) is required) ≡ true
    → needs_verification f ≡ true
unfolding needs_verification
required-needs_verification f h = ground arith

conditions :
    (b n v l e : Bool)
    → (b ≡ true → n ≡ true)
    → (b && not ((n && not v) || l || e)) ≡ (b && (v && (not l && not e)))
conditions true true v l e h = ground arith
conditions true false v l e h = cc (h refl)
conditions false n v l e h = refl

-- The doubt that `normalize` computes.
abbrev pub is_doubted : DocumentFinding → Bool
is_doubted f =
    (needs_verification f && not (is_verified f))
    || is_low f.confidence
    || evidence_invalid f.validation

-- Normalising an open page finding leaves it no blocker, and REQUIRED exactly if its category
-- starts from REQUIRED, it was verified, is not of low confidence and has no invalid evidence.
pub normalize-final :
    (f : DocumentFinding)
    → is_closed f.status ≡ false
    → (is_final blocker (normalize f).severity_final ≡ false)
      × (is_final required (normalize f).severity_final ≡ (
          (or_suggestion (base? f.category) is required)
          && (is_verified f && (not (is_low f.confidence) && not (evidence_invalid f.validation)))))
unfolding normalize
normalize-final f h =
    let s = or_suggestion (base? f.category) in
    rw h (
      capped-not_blocker s (is_doubted f),
      capped-required s (is_doubted f)
          ∙ conditions (s is required) (needs_verification f) (is_verified f) (is_low f.confidence)
              (evidence_invalid f.validation) (required-needs_verification f),
    )

none≢some {ℓ} : {A : Type ℓ} {a : A} → ¬ (none ≡ some a)
none≢some = λ h. ground (arith, h)

next_of-holds {ℓ} :
    {A : Type ℓ} (p : A → Bool) (xs : List A) (a : A) → next_of p xs ≡ some a → p a ≡ true
next_of-holds p [] a = λ h. cc h
next_of-holds p (x ∷ xs) a = elim (Bool-cases (p x)) [
  | inl e ↦ rw e (λ h. subst (λ y. p y ≡ true) (eq_of_some x a h) e)
  | inr e ↦ rw e (next_of-holds p xs a)
]

-- Whatever follows from a Boolean contradiction.
absurd_of {ℓ} : {A : Type ℓ} → false ≡ true → A
absurd_of h = elim (false≢true h) [ ]

-- What a valid result says of the section that was located.
validate_in-cases :
    (u : Unicode) (corpus : Corpus) (reasons : List String) (f : DocumentFinding)
    → (o : Option Section) → (validate_in u corpus reasons f o).1.valid ≡ true
    → (s : Section) × (o ≡ some s)
      × (str_eq s.page_id corpus.subject_page_id ≡ true)
      × ((validate_in u corpus reasons f o).0.anchor.heading_path ≡ s.heading_path)
unfolding validate_in
validate_in-cases u corpus reasons f none = λ h. absurd_of h
validate_in-cases u corpus reasons f (some s) =
    elim (Bool-cases (str_eq s.page_id corpus.subject_page_id)) [
      | inl e ↦
          elim (Bool-cases (
            str_eq f.category "consistency" && length (locate_related u corpus f.related).0 == 0)) [
              | inl c ↦ rw (e, c) (λ h. absurd_of h)
              | inr c ↦ rw (e, c) (λ h. (s, refl, e, refl))
            ]
      | inr e ↦ rw e (λ h. absurd_of h)
    ]

-- The section stands in the list.
abbrev pub In : Section → List Section → Type 0
In a [] = ⊥
In a (x ∷ xs) = (a ≡ x) ⊎ In a xs

In-append : (a : Section) (xs ys : List Section) → In a (xs ++ ys) → In a xs ⊎ In a ys
In-append a [] ys h = inr h
In-append a (x ∷ xs) ys (inl e) = inl (inl e)
In-append a (x ∷ xs) ys (inr h) = elim (In-append a xs ys h) [ inl i ↦ inl (inr i) | inr i ↦ inr i ]

In-select_if :
    (p : Section → Bool) (a : Section) (xs : List Section) → In a (select_if p xs) → In a xs
In-select_if p a [] = λ h. h
In-select_if p a (x ∷ xs) = elim (Bool-cases (p x)) [
  | inl e ↦ rw e (λ h. elim h [ inl i ↦ inl i | inr i ↦ inr (In-select_if p a xs i) ])
  | inr e ↦ rw e (λ h. inr (In-select_if p a xs h))
]

next_of-In :
    (p : Section → Bool) (xs : List Section) (a : Section) → next_of p xs ≡ some a → In a xs
next_of-In p [] a = λ h. elim (none≢some h) [ ]
next_of-In p (x ∷ xs) a = elim (Bool-cases (p x)) [
  | inl e ↦ rw e (λ h. inl (sym (eq_of_some x a h)))
  | inr e ↦ rw e (λ h. inr (next_of-In p xs a h))
]

tried-In :
    (u : Unicode) (p : Passage) (sections : List Section) (s : Section)
    → In s (tried u p sections)
    → In s sections
unfolding tried
tried-In u p sections s h =
    let named = λ (s : Section). text_eq (squash u s.heading_path) (squash u p.heading_path) in
    elim (In-append s (select_if named sections) (select_if (λ s. not (named s)) sections) h) [
      | inl i ↦ In-select_if named s sections i
      | inr i ↦ In-select_if (λ s. not (named s)) s sections i
    ]

validate_in-located :
    (u : Unicode) (corpus : Corpus) (reasons : List String) (f : DocumentFinding)
    → (validate_in u corpus reasons f (locate u corpus f.anchor)).1.valid ≡ true
    → (s : Section) × In s (corpus.sections_for f.anchor.page_id)
      × (str_eq s.page_id corpus.subject_page_id ≡ true)
      × (occurs (squash u f.anchor.quote) (squash u s.body) ≡ true)
      × ((validate_in u corpus reasons f (locate u corpus f.anchor)).0.anchor.heading_path
          ≡ s.heading_path)
unfolding locate
validate_in-located u corpus reasons f h =
    let (s, e, page, heading) = validate_in-cases u corpus reasons f (locate u corpus f.anchor) h in
    (
      s,
      tried-In u f.anchor (corpus.sections_for f.anchor.page_id) s (
          next_of-In (λ s. occurs (squash u f.anchor.quote) (squash u s.body))
            (tried u f.anchor (corpus.sections_for f.anchor.page_id)) s e),
      page,
      next_of-holds (λ s. occurs (squash u f.anchor.quote) (squash u s.body))
          (tried u f.anchor (corpus.sections_for f.anchor.page_id)) s e,
      heading,
    )

-- A page finding that validates quotes the reviewed page: one of the sections of its anchor's page
-- belongs to the reviewed page and contains the quote, both squashed, and the anchor names its
-- heading.
pub validate-located :
    (u : Unicode) (corpus : Corpus) (f : DocumentFinding)
    → (validate u corpus f).1.valid ≡ true
    → (s : Section) × In s (corpus.sections_for f.anchor.page_id)
      × (str_eq s.page_id corpus.subject_page_id ≡ true)
      × (occurs (squash u f.anchor.quote) (squash u s.body) ≡ true)
      × ((validate u corpus f).0.anchor.heading_path ≡ s.heading_path)
unfolding validate
validate-located u corpus f = elim (Bool-cases (is_listed (base? f.category))) [
  | inl e ↦ rw e (validate_in-located u corpus [] f)
  | inr e ↦ rw e (
      validate_in-located u corpus ("unknown category normalised" ∷ [])
        (record f { category = "clarity" }))
]
