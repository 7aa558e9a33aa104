-- ===== src/Store/Laws/Updates.antt =====
-- `update_first` and `next_of` (the queries and writes of reviewer/store/repositories.py) as equations.
use code_reviewer.Prelude.{
  ℕ, ◌+◌, String, ◌≡◌, refl, sym, ap, inl, inr, Bool, true, false, none, some, List, [], ◌∷◌, ◌++◌,
  arith, Bool-cases, length, select_if, next_of, All, eq_of_some,
}
use code_reviewer.Prelude.Text.{str_eq, eq_of_str_eq}
use mathlib.Core.Path.{subst}
use code_reviewer.Store.Rows.{has_id, Review, Database, get, update_first}

module _ {ℓ} {A : Type ℓ} where
  pub next_of_holds : (p : A → Bool) (xs : List A) (r : A) → next_of p xs ≡ some r → p r ≡ true
  next_of_holds p [] r h = cc
  next_of_holds p (x ∷ xs) r h = elim (Bool-cases (p x)) [
    | inl e ↦ ground (arith, e)
    | inr e ↦ ground (arith, e, next_of_holds p xs r)
  ]

  pub next_of-none :
      (p : A → Bool) (xs : List A) → next_of p xs ≡ none → length (select_if p xs) ≡ 0
  next_of-none p [] h = refl
  next_of-none p (x ∷ xs) h = ground (arith, next_of-none p xs)

  pub All-next_of {κ} :
      (P : A → Type κ) (p : A → Bool) (xs : List A) (r : A) → next_of p xs ≡ some r → All P xs → P r
  All-next_of P p [] r h a = cc
  All-next_of P p (x ∷ xs) r h a = elim (Bool-cases (p x)) [
    | inl e ↦ let same : some x ≡ some r = rw e at h in subst P (eq_of_some x r same) a.0
    | inr e ↦ All-next_of P p xs r (rw e at h) a.1
  ]

  pub All-update_first {κ} :
      (P : A → Type κ) (p : A → Bool) (f : A → A) (xs : List A) (r : A)
      → next_of p xs ≡ some r
      → P (f r)
      → All P xs
      → All P (update_first p f xs)
  unfolding update_first
  All-update_first P p f [] r h new a = tt
  All-update_first P p f (x ∷ xs) r h new a = elim (Bool-cases (p x)) [
    | inl e ↦
        let same : some x ≡ some r = rw e at h in
        rw e (subst (λ y. P (f y)) (sym (eq_of_some x r same)) new, a.1)
    | inr e ↦ rw e (a.0, All-update_first P p f xs r (rw e at h) new a.1)
  ]

abbrev pub one_if : Bool → ℕ
one_if true = 1
one_if false = 0

-- How many rows satisfy a test after one row was written.
pub update_first_counts {ℓ} :
    {A : Type ℓ} (p q : A → Bool) (f : A → A) (xs : List A) (r : A)
    → next_of p xs ≡ some r
    → length (select_if q (update_first p f xs)) + one_if (q r)
      ≡ length (select_if q xs) + one_if (q (f r))
unfolding update_first
update_first_counts p q f [] r h = cc
update_first_counts p q f (x ∷ xs) r h = elim (Bool-cases (p x)) [
  | inl e ↦ let same : some x ≡ some r = rw e at h in rw (e, ← eq_of_some x r same) (ground arith)
  | inr e ↦ rw e (ground (arith, update_first_counts p q f xs r (rw e at h)))
]

pub select_if_append {ℓ} :
    {A : Type ℓ} (q : A → Bool) (xs : List A) (r : A)
    → length (select_if q (xs ++ (r ∷ []))) ≡ length (select_if q xs) + one_if (q r)
select_if_append q [] r = ground arith
select_if_append q (x ∷ xs) r = ground (arith, select_if_append q xs r)

-- A row that was found by its id is found by the id that it has.
pub get_self :
    (db : Database) (id : String) (r : Review) → get db id ≡ some r → get db r.id ≡ some r
unfolding get
get_self db id r h =
    let same : r.id ≡ id = eq_of_str_eq r.id id (next_of_holds (has_id id) db.reviews r h) in
    subst (λ i. next_of (has_id i) db.reviews ≡ some r) (sym same) h

pub update_first-none {ℓ} :
    {A : Type ℓ} (p : A → Bool) (f : A → A) (xs : List A)
    → next_of p xs ≡ none
    → update_first p f xs ≡ xs
unfolding update_first
update_first-none p f [] h = refl
update_first-none p f (x ∷ xs) h = elim (Bool-cases (p x)) [
  | inl e ↦ absurd (some_none x (rw e at h))
  | inr e ↦ rw e (ap (λ l. x ∷ l) (update_first-none p f xs (rw e at h)))
]
  where
    some_none : {A : Type ℓ} (y : A) → ¬ (some y ≡ none)
    some_none y h' = cc

pub found_written_self :
    (id : String) (f : Review → Review) (rs : List Review) (r : Review)
    → ((x : Review) → (f x).id ≡ x.id)
    → next_of (has_id id) rs ≡ some r
    → next_of (has_id id) (update_first (has_id id) f rs) ≡ some (f r)
unfolding update_first
found_written_self id f [] r keep h = cc
found_written_self id f (x ∷ rs) r keep h = elim (Bool-cases (str_eq x.id id)) [
  | inl e ↦
      let same : x ≡ r = eq_of_some x r (rw e at h) in
      let kept : str_eq (f x).id id ≡ true = rw (keep x) e in
      rw e (rw kept (ap (λ y. some (f y)) same))
  | inr e ↦
      let rest : next_of (has_id id) rs ≡ some r = rw e at h in
      rw e (rw e (found_written_self id f rs r keep rest))
]

-- What an id finds after a write to the row that it found.
pub found_written :
    (id : String) (f : Review → Review) (rs : List Review) (r : Review)
    → ((x : Review) → (f x).id ≡ x.id)
    → next_of (has_id id) rs ≡ some r
    → next_of (has_id id) (update_first (has_id r.id) f rs) ≡ some (f r)
found_written id f rs r keep found =
    subst (λ i. next_of (has_id id) (update_first (has_id i) f rs) ≡ some (f r))
      (sym (eq_of_str_eq r.id id (next_of_holds (has_id id) rs r found)))
      (found_written_self id f rs r keep found)
