-- ===== src/Reasons/Laws.antt =====
-- What a reader is told of a review's end (reviewer/orchestrator/reasons.py).
use code_reviewer.Prelude.{
  ◌≡◌, refl, sym, ap, ◌∙◌, inl, inr, Bool, true, false, not, ◌&&◌, ◌||◌, Option, none, some, List,
  [], ◌∷◌, ◌++◌, arith, Bool-cases, any, any-append,
}
use code_reviewer.Prelude.Text.{Text, text_eq, text_eq_refl, text_eq_sym, eq_of_text_eq}
use code_reviewer.States.{published}
use code_reviewer.Reasons.{
  degradation, add_reason, add_degradations, is_published, degradation_reasons, terminal_reason,
  unexplained, has_code, Ended, reasons, Reason,
}
use code_reviewer.States.{published}

any-unexplained : (b : Bool) → any (λ (r : Reason). r.partial) (unexplained b) ≡ b
any-unexplained true = refl
any-unexplained false = refl

one_holds : (p s a : Bool) → p ≡ true → s ≡ true → (a || (p && (s && not a))) ≡ true
one_holds p s a hp hs = ground (arith, hp, hs)

-- A published partial review always shows a reason that makes it partial.
pub reasons-explain_partial :
    (e : Ended) (ds : List Text)
    → e.partial ≡ true
    → e.state ≡ published
    → any (λ r. r.partial) (reasons e ds) ≡ true
unfolding reasons
reasons-explain_partial e ds partial state =
    let found = terminal_reason e.error e.state ++ degradation_reasons ds in
    let rest = e.partial && (is_published e.state && not (any (λ r. r.partial) found)) in
    any-append (λ r. r.partial) found (unexplained rest)
    ∙ ap (λ b. any (λ r. r.partial) found || b) (any-unexplained rest)
    ∙ one_holds e.partial (is_published e.state) (any (λ r. r.partial) found) partial
        (ap is_published state)

-- No two items have one code.
abbrev pub Distinct : List Reason → Type 0
Distinct [] = Unit
Distinct (r ∷ rs) = (any (has_code r.code) rs ≡ false) × Distinct rs

Distinct-snoc :
    (r : Reason) (items : List Reason)
    → any (has_code r.code) items ≡ false
    → Distinct items
    → Distinct (items ++ (r ∷ []))
Distinct-snoc r [] h d = (refl, tt)
Distinct-snoc r (x ∷ xs) h d = (
  any-append (has_code x.code) xs (r ∷ []) ∙ ground (arith, h, d.0, text_eq_sym r.code x.code),
  Distinct-snoc r xs (ground (arith, h)) d.1,
)

add_reason-Distinct :
    (o : Option Reason) (items : List Reason) → Distinct items → Distinct (add_reason o items)
add_reason-Distinct none items d = d
add_reason-Distinct (some r) items d = elim (Bool-cases (any (has_code r.code) items)) [
  | inl e ↦ rw e d
  | inr e ↦ rw e (Distinct-snoc r items e d)
]

add_degradations-Distinct :
    (ds : List Text) (items : List Reason) → Distinct items → Distinct (add_degradations ds items)
unfolding add_degradations
add_degradations-Distinct [] items d = d
add_degradations-Distinct (c ∷ ds) items d =
    add_degradations-Distinct ds (add_reason (degradation c) items)
      (add_reason-Distinct (degradation c) items d)

add_reason-keeps :
    (p : Reason → Bool) (o : Option Reason) (items : List Reason)
    → any p items ≡ true
    → any p (add_reason o items) ≡ true
add_reason-keeps p none items h = h
add_reason-keeps p (some r) items h = elim (Bool-cases (any (has_code r.code) items)) [
  | inl e ↦ rw e h
  | inr e ↦ rw e (any-append p items (r ∷ []) ∙ ground (arith, h))
]

add_degradations-keeps :
    (p : Reason → Bool) (ds : List Text) (items : List Reason)
    → any p items ≡ true
    → any p (add_degradations ds items) ≡ true
unfolding add_degradations
add_degradations-keeps p [] items h = h
add_degradations-keeps p (c ∷ ds) items h =
    add_degradations-keeps p ds (add_reason (degradation c) items)
      (add_reason-keeps p (degradation c) items h)

add_reason-has :
    (r : Reason) (items : List Reason) → any (has_code r.code) (add_reason (some r) items) ≡ true
add_reason-has r items = elim (Bool-cases (any (has_code r.code) items)) [
  | inl e ↦ rw e e
  | inr e ↦ rw e (any-append (has_code r.code) items (r ∷ []) ∙ ground (arith, text_eq_refl r.code))
]

add_degradations-has :
    (d : Text) (r : Reason) (ds : List Text) (items : List Reason)
    → degradation d ≡ some r
    → any (text_eq d) ds ≡ true
    → any (has_code r.code) (add_degradations ds items) ≡ true
unfolding add_degradations
add_degradations-has d r [] items g h = ground (arith, h)
add_degradations-has d r (c ∷ ds) items g h = elim (Bool-cases (text_eq d c)) [
  | inl e ↦
      let same : degradation c ≡ some r = ap degradation (sym (eq_of_text_eq d c e)) ∙ g in
      add_degradations-keeps (has_code r.code) ds (add_reason (degradation c) items)
        (ap (λ o. any (has_code r.code) (add_reason o items)) same ∙ add_reason-has r items)
  | inr e ↦ add_degradations-has d r ds (add_reason (degradation c) items) g (rw e at h)
]

-- The reasons of the degradation codes have distinct codes, and each recorded code that has a
-- reason is among them by its code.
pub add_degradations_complete :
    (d : Text) (r : Reason) (ds : List Text)
    → degradation d ≡ some r
    → any (text_eq d) ds ≡ true
    → Distinct (add_degradations ds []) × (any (has_code r.code) (add_degradations ds []) ≡ true)
add_degradations_complete d r ds g h =
    (add_degradations-Distinct ds [] tt, add_degradations-has d r ds [] g h)
