-- ===== src/Orchestrator/Stages/Order.antt =====
-- The dict of results, in whatever order the workers fill it (reviewer/orchestrator/stages.py).
use code_reviewer.Prelude.{
  ℕ, zero, suc, ◌+◌, ◌≤◌, ◌<◌, ◌≡◌, refl, sym, ap, ◌∙◌, inl, inr, Bool, true, false, ◌||◌, Option,
  none, some, List, [], ◌∷◌, arith, ltb, ◌==◌, if◌then◌else◌, Bool-cases, length, select_if,
  get_elem?, lt→ltb, eq_of_some,
}
use code_reviewer.Orchestrator.Stages.{
  review_unit, leave_out, is_left_out, StageResult, put, WorkUnit, Calls,
}
use mathlib.Core.Path.{ap₂}

module _ {ℓ} {P : Type ℓ} (c : Calls P) where
  abbrev pub result_with : Option (StageResult P) → Bool → WorkUnit → StageResult P
  result_with (some r) exhausted u = r
  result_with none exhausted u =
      if is_left_out c exhausted u then leave_out c exhausted u else (review_unit c u).0

  -- The result of a unit that is taken with the flag as given.
  abbrev pub final_result : Bool → WorkUnit → StageResult P
  final_result exhausted u = result_with (c.cached u) exhausted u

  -- The results by index, from the index n; `seen` says which units were taken with the flag set.
  unfoldable pub results_from : (ℕ → Bool) → ℕ → List WorkUnit → List (ℕ × StageResult P)
  results_from seen n [] = []
  results_from seen n (u ∷ us) = (n, final_result (seen n) u) ∷ results_from seen (n + 1) us

  abbrev pub picked : (ℕ → Bool) → (ℕ → Bool) → ℕ → List WorkUnit → List (ℕ × StageResult P)
  picked p seen n us = select_if (λ e. p e.0) (results_from seen n us)

  pub picked-agree :
      (p q seen seen' : ℕ → Bool) (n : ℕ) (us : List WorkUnit)
      → ((j : ℕ) → n ≤ j → p j ≡ q j)
      → ((j : ℕ) → n ≤ j → p j ≡ true → seen j ≡ seen' j)
      → picked p seen n us ≡ picked q seen' n us
  unfolding results_from
  picked-agree p q seen seen' n [] pq ss = refl
  picked-agree p q seen seen' n (u ∷ us) pq ss =
      let rest : picked p seen (n + 1) us ≡ picked q seen' (n + 1) us =
        picked-agree p q seen seen' (n + 1) us (λ j h. pq j (omega arith))
          (λ j h. ss j (omega arith)) in
      elim (Bool-cases (p n)) [
        | inl e ↦
            rw (sym (pq n (omega arith)), e)
              (ap₂ (λ x y. (n, final_result x u) ∷ y) (ss n (omega arith) e) rest)
        | inr e ↦ rw (sym (pq n (omega arith)), e) rest
      ]

  put-below :
      (p seen : ℕ → Bool) (i n : ℕ) (r : StageResult P) (us : List WorkUnit)
      → i < n
      → put i r (picked p seen n us) ≡ (i, r) ∷ picked p seen n us
  unfolding results_from put
  put-below p seen i n r [] lt = refl
  put-below p seen i n r (u ∷ us) lt = elim (Bool-cases (p n)) [
    | inl e ↦ rw (e, lt→ltb i n lt) refl
    | inr e ↦ rw e (put-below p seen i (n + 1) r us (omega (arith, lt)))
  ]

  pub put-picked :
      (p q seen : ℕ → Bool) (i k n : ℕ) (u : WorkUnit) (us : List WorkUnit)
      → get_elem? us k ≡ some u
      → i ≡ n + k
      → p i ≡ false
      → ((j : ℕ) → q j ≡ (p j || j == i))
      → put i (final_result (seen i) u) (picked p seen n us) ≡ picked q seen n us
  unfolding results_from put
  put-picked p q seen i k n u [] at e pi pq = absurd (ground (arith, at))
  put-picked p q seen i zero n u (v ∷ us) at e pi pq =
      let ni : i ≡ n = omega (arith, e) in
      let vu : u ≡ v = sym (eq_of_some v u at) in
      let pn : p n ≡ false = ap p (sym ni) ∙ pi in
      let qn : q n ≡ true = ground (arith, pq n, ni) in
      let rest : picked p seen (n + 1) us ≡ picked q seen (n + 1) us =
        picked-agree p q seen seen (n + 1) us (λ j h. ground (arith, pq j, ni, h))
          (λ j h k. refl) in
      rw (pn, qn)
        (put-below p seen i (n + 1) (final_result (seen i) u) us (omega (arith, ni))
          ∙ ap₂ (λ x y. x ∷ y) (ap₂ (λ x w. (x, final_result (seen x) w)) ni vu) rest)
  put-picked p q seen i (suc k) n u (v ∷ us) at e pi pq =
      let rest = put-picked p q seen i k (n + 1) u us at (omega (arith, e)) pi pq in
      let lt : ltb i n ≡ false = ground (arith, e) in
      let ne : (i == n) ≡ false = ground (arith, e) in
      elim (Bool-cases (p n)) [
        | inl h ↦
            let qn : q n ≡ true = ground (arith, pq n, h) in
            rw (h, qn, lt, ne) (ap (λ x. (n, final_result (seen n) v) ∷ x) rest)
        | inr h ↦ let qn : q n ≡ false = ground (arith, pq n, h, e) in rw (h, qn) rest
      ]

  -- With every index picked, the results themselves.
  pub picked-all :
      (p seen : ℕ → Bool) (n : ℕ) (us : List WorkUnit)
      → ((j : ℕ) → j < n + length us → p j ≡ true)
      → picked p seen n us ≡ results_from seen n us
  unfolding results_from
  picked-all p seen n [] h = refl
  picked-all p seen n (u ∷ us) h = rw (h n (omega arith)) (
      ap (λ x. (n, final_result (seen n) u) ∷ x)
        (picked-all p seen (n + 1) us (λ j k. h j (omega (arith, k)))))

  pub picked-none :
      (p seen : ℕ → Bool) (n : ℕ) (us : List WorkUnit)
      → ((j : ℕ) → p j ≡ false)
      → picked p seen n us ≡ []
  unfolding results_from
  picked-none p seen n [] h = refl
  picked-none p seen n (u ∷ us) h = rw (h n) (picked-none p seen (n + 1) us h)
