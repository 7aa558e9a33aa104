-- ===== src/Store/Laws/Replay/Rows.antt =====
-- Rows by their ids: distinct ids, and what `get` finds after a write or an insertion
-- (reviewer/store/repositories.py).
use code_reviewer.Prelude.{
  String, ◌≡◌, refl, sym, inl, inr, Bool, true, false, none, some, List, [], ◌∷◌, ◌++◌, arith,
  if◌then◌else◌, Bool-cases, next_of, All, All-append, eq_of_some,
}
use code_reviewer.Prelude.Text.{str_eq, eq_of_str_eq}
use text.Mathlib.TextEquality.{eq_iff}
use mathlib.Core.Path.{subst}
use code_reviewer.Store.Rows.{Review, update_first, has_id}
use code_reviewer.Store.Laws.Updates.{All-next_of}

-- No two reviews share an id.
abbrev pub DistinctIds : List Review → Type 0
DistinctIds [] = Unit
DistinctIds (r ∷ rs) = All (λ y. str_eq r.id y.id ≡ false) rs × DistinctIds rs

-- A write that keeps the id.
abbrev pub KeepsId : (Review → Review) → Type 0
KeepsId f = (r : Review) → (f r).id ≡ r.id

others-update_first :
    (x : Review) (p : Review → Bool) (f : Review → Review) (rs : List Review)
    → KeepsId f
    → All (λ y. str_eq x.id y.id ≡ false) rs
    → All (λ y. str_eq x.id y.id ≡ false) (update_first p f rs)
unfolding update_first
others-update_first x p f [] keep d = tt
others-update_first x p f (y ∷ rs) keep d = elim (Bool-cases (p y)) [
  | inl e ↦ rw e (rw (keep y) d.0, d.1)
  | inr e ↦ rw e (d.0, others-update_first x p f rs keep d.1)
]

pub update_first-DistinctIds :
    (p : Review → Bool) (f : Review → Review) (rs : List Review)
    → KeepsId f
    → DistinctIds rs
    → DistinctIds (update_first p f rs)
unfolding update_first
update_first-DistinctIds p f [] keep d = tt
update_first-DistinctIds p f (r ∷ rs) keep d = elim (Bool-cases (p r)) [
  | inl e ↦ rw (e, keep r) d
  | inr e ↦ rw e (others-update_first r p f rs keep d.0, update_first-DistinctIds p f rs keep d.1)
]

-- What the query by id finds after a write.
pub get-update_first :
    (p : Review → Bool) (f : Review → Review) (rs : List Review) (r : Review) (j : String)
    → KeepsId f
    → DistinctIds rs
    → next_of p rs ≡ some r
    → next_of (has_id j) (update_first p f rs)
      ≡ (if str_eq r.id j then some (f r) else next_of (has_id j) rs)
unfolding update_first
get-update_first p f [] r j keep d h = cc
get-update_first p f (x ∷ rs) r j keep d h = elim (Bool-cases (p x)) [
  | inl e ↦ let same : x ≡ r = eq_of_some x r (rw e at h) in rw (e, ← same, keep x) (ground arith)
  | inr e ↦
      let found : next_of p rs ≡ some r = rw e at h in
      let apart : str_eq x.id r.id ≡ false =
        All-next_of (λ y. str_eq x.id y.id ≡ false) p rs r found d.0 in
      rw e (
        ground (
          arith,
          eq_iff x.id j,
          eq_iff r.id j,
          eq_iff x.id r.id,
          get-update_first p f rs r j keep d.1 found,
        ))
]

-- A row that any query found is the one that its id finds.
pub get_found :
    (p : Review → Bool) (rs : List Review) (r : Review) (j : String)
    → DistinctIds rs
    → next_of p rs ≡ some r
    → str_eq r.id j ≡ true
    → next_of (has_id j) rs ≡ some r
get_found p [] r j d h k = cc
get_found p (x ∷ rs) r j d h k = elim (Bool-cases (p x)) [
  | inl e ↦
      let same : x ≡ r = eq_of_some x r (rw e at h) in
      subst (λ y. (if str_eq y.id j then some y else next_of (has_id j) rs) ≡ some r) (sym same)
        (rw k)
  | inr e ↦
      let found : next_of p rs ≡ some r = rw e at h in
      let apart : str_eq x.id r.id ≡ false =
        All-next_of (λ y. str_eq x.id y.id ≡ false) p rs r found d.0 in
      let other : str_eq x.id j ≡ false =
        subst (λ i. str_eq x.id i ≡ false) (eq_of_str_eq r.id j k) apart in
      rw other (get_found p rs r j d.1 found k)
]

pub get-append :
    (rs : List Review) (r : Review) (j : String)
    → next_of (has_id r.id) rs ≡ none
    → next_of (has_id j) (rs ++ (r ∷ []))
      ≡ (if str_eq r.id j then some r else next_of (has_id j) rs)
get-append [] r j h = refl
get-append (x ∷ rs) r j h =
    ground (arith, eq_iff x.id j, eq_iff r.id j, eq_iff x.id r.id, get-append rs r j)

pub append-DistinctIds :
    (rs : List Review) (r : Review)
    → next_of (has_id r.id) rs ≡ none
    → DistinctIds rs
    → DistinctIds (rs ++ (r ∷ []))
append-DistinctIds [] r h d = (tt, tt)
append-DistinctIds (x ∷ rs) r h d = elim (Bool-cases (str_eq x.id r.id)) [
  | inl e ↦ absurd (some_none x (rw e at h))
  | inr e ↦ (
    All-append (λ y. str_eq x.id y.id ≡ false) rs (r ∷ []) d.0 (e, tt),
    append-DistinctIds rs r (rw e at h) d.1,
  )
]
  where
    some_none : (x : Review) → ¬ (some x ≡ none)
    some_none x h = cc
