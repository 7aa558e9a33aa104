-- ===== src/Orchestrator/UnitPlan/Laws.antt =====
-- The plan has every unit (reviewer/orchestrator/unit_plan.py).
use code_reviewer.Prelude.{
  ℕ, zero, suc, ◌+◌, ◌≤◌, max, String, ◌≡◌, refl, sym, ap, inl, inr, Bool, List, [], ◌∷◌, ◌++◌,
  arith, Bool-cases, length, select_if, take, get_elem?,
}
use code_reviewer.Prelude.Text.{str_eq}
use code_reviewer.Prelude.Sorting.{sort_by, insert_by}
use code_reviewer.Context.Diff.{DiffFile}
use code_reviewer.Orchestrator.Streaming.{Dict, append_to}
use code_reviewer.Orchestrator.UnitPlan.{grouped, found, round, rounds, longest, plan, path_le}

module _ {ℓ} {A : Type ℓ} (q : A → Bool) where
  -- How many units pass the test.
  abbrev pub counted : List A → ℕ
  counted us = length (select_if q us)

  -- The same over the groups, with n units of each.
  abbrev counted_to : ℕ → Dict (List A) → ℕ
  counted_to n [] = 0
  counted_to n ((path, us) ∷ groups) = counted (take n us) + counted_to n groups

  abbrev counted_all : Dict (List A) → ℕ
  counted_all [] = 0
  counted_all ((path, us) ∷ groups) = counted us + counted_all groups

  counted-append : (us vs : List A) → counted (us ++ vs) ≡ counted us + counted vs
  counted-append [] vs = omega arith
  counted-append (u ∷ us) vs = ground (arith, counted-append us vs)

  counted-take :
      (n : ℕ) (us : List A)
      → counted (take (suc n) us) ≡ counted (take n us) + counted (found (get_elem? us n))
  counted-take zero [] = omega arith
  counted-take (suc n) [] = omega arith
  counted-take zero (u ∷ us) = ground arith
  counted-take (suc n) (u ∷ us) = ground (arith, counted-take n us)

  counted-round :
      (n : ℕ) (groups : Dict (List A))
      → counted_to (suc n) groups ≡ counted_to n groups + counted (round n groups)
  unfolding round
  counted-round n [] = omega arith
  counted-round n ((path, us) ∷ groups) = omega (
    arith,
    counted-take n us,
    counted-round n groups,
    counted-append (found (get_elem? us n)) (round n groups),
  )

  counted_to-zero : (groups : Dict (List A)) → counted_to 0 groups ≡ 0
  counted_to-zero [] = refl
  counted_to-zero ((path, us) ∷ groups) = omega (arith, counted_to-zero groups)

  counted-rounds :
      (n : ℕ) (groups : Dict (List A)) → counted (rounds n groups) ≡ counted_to n groups
  unfolding rounds
  counted-rounds zero groups = sym (counted_to-zero groups)
  counted-rounds (suc n) groups = omega (
    arith,
    counted-append (rounds n groups) (round n groups),
    counted-rounds n groups,
    counted-round n groups,
  )

  take-whole : (n : ℕ) (us : List A) → length us ≤ n → take n us ≡ us
  take-whole zero [] h = refl
  take-whole (suc n) [] h = refl
  take-whole zero (u ∷ us) h = absurd (omega (arith, h))
  take-whole (suc n) (u ∷ us) h = ap (λ vs. u ∷ vs) (take-whole n us (omega (arith, h)))

  counted_to-whole :
      (n : ℕ) (groups : Dict (List A))
      → longest groups ≤ n
      → counted_to n groups ≡ counted_all groups
  unfolding longest
  counted_to-whole n [] h = refl
  counted_to-whole n ((path, us) ∷ groups) h = omega (
    arith,
    ap counted (take-whole n us (omega (arith, h))),
    counted_to-whole n groups (omega (arith, h)),
  )

  counted-append_to :
      (path : String) (u : A) (groups : Dict (List A))
      → counted_all (append_to path u groups) ≡ counted_all groups + counted (u ∷ [])
  unfolding append_to
  counted-append_to path u [] = omega arith
  counted-append_to path u ((p, us) ∷ groups) = elim (Bool-cases (str_eq p path)) [
    | inl x ↦ rw x (omega (arith, counted-append us (u ∷ [])))
    | inr x ↦ rw x (omega (arith, counted-append_to path u groups))
  ]

  counted-grouped :
      (path_of : A → String) (us : List A) (groups : Dict (List A))
      → counted_all (grouped path_of us groups) ≡ counted_all groups + counted us
  unfolding grouped
  counted-grouped path_of [] groups = omega arith
  counted-grouped path_of (u ∷ us) groups = omega (
    arith,
    counted-grouped path_of us (append_to (path_of u) u groups),
    counted-append_to (path_of u) u groups,
    counted-append (u ∷ []) us,
  )

  module _ (le : String × List A → String × List A → Bool) where
    insert_by-counted :
        (g : String × List A) (groups : Dict (List A))
        → (counted_all (insert_by le g groups) ≡ counted g.1 + counted_all groups)
          × (longest (insert_by le g groups) ≡ max (length g.1) (longest groups))
    unfolding insert_by longest
    insert_by-counted g [] = (refl, refl)
    insert_by-counted g (h ∷ groups) = elim (Bool-cases (le g h)) [
      | inl x ↦ rw x ((refl, refl))
      | inr x ↦
          let rest = insert_by-counted g groups in
          rw x ((omega (arith, rest.0), omega (arith, rest.1)))
    ]

    sort_by-counted :
        (groups : Dict (List A))
        → (counted_all (sort_by le groups) ≡ counted_all groups)
          × (longest (sort_by le groups) ≡ longest groups)
    unfolding sort_by longest
    sort_by-counted [] = (refl, refl)
    sort_by-counted (g ∷ groups) =
        let here = insert_by-counted g (sort_by le groups) in
        let rest = sort_by-counted groups in
        (omega (arith, here.0, rest.0), omega (arith, here.1, rest.1))

  -- The plan holds the same units as the partition: any test accepts as many of the one as of the
  -- other.
  pub plan-conserves :
      (path_of : A → String) (files : List DiffFile) (units : List A)
      → counted (plan path_of files units) ≡ counted units
  unfolding plan
  plan-conserves path_of files units =
      let groups = grouped path_of units [] in
      let le : String × List A → String × List A → Bool = λ g h. path_le files g.0 h.0 in
      let paths = sort_by le groups in
      let sorted = sort_by-counted le groups in
      omega (
        arith,
        counted-rounds (longest groups) paths,
        counted_to-whole (longest groups) paths (omega (arith, sorted.1)),
        sorted.0,
        counted-grouped path_of units [],
      )
