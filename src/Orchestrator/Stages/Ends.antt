-- ===== src/Orchestrator/Stages/Ends.antt =====
-- The workers come to an end (reviewer/orchestrator/stages.py).
use code_reviewer.Prelude.{
  ℕ, zero, suc, ◌+◌, ◌*◌, ◌<◌, ◌≡◌, refl, ap, ◌⊎◌, inl, inr, true, Option, none, some, List, [],
  ◌∷◌, arith, ltb, Bool-cases, length, get_elem?, ltb→lt,
}
use code_reviewer.Orchestrator.Stages.{
  take_unit, StageResult, WorkUnit, Execution, Calls, review_unit, end_unit, Step, taken, ended,
  Reach, take_with, is_left_out, is_examined,
}
use code_reviewer.Orchestrator.Stages.Runs.{Explained, Finished, Reach-Explained}
use code_reviewer.Orchestrator.Stages.Progress.{
  Counted, Reach-Counted, count_set-some, count_set-none, count_set-off,
}

-- The steps that are left, at most: two for a unit that no worker has taken.
abbrev pub steps_left {ℓ} : {P : Type ℓ} → Execution P → ℕ
steps_left s = 2 * length s.pending + s.counts.running

get_elem_below {ℓ} :
    {A : Type ℓ} (xs : List A) (i : ℕ) → i < length xs → (a : A) × (get_elem? xs i ≡ some a)
get_elem_below [] i lt = absurd (omega (arith, lt))
get_elem_below (x ∷ xs) zero lt = (x, refl)
get_elem_below (x ∷ xs) (suc i) lt = get_elem_below xs i (omega (arith, lt))

module _ {ℓ} {P : Type ℓ} (c : Calls P) (workers : ℕ) (units : List WorkUnit) where
  take-shrinks :
      (s : Execution P) (u : WorkUnit) (rest : List WorkUnit) (o : Option (StageResult P))
      → s.pending ≡ u ∷ rest
      → steps_left (take_with c o u rest s) < steps_left s
  take-shrinks s u rest (some r) p = elim (Bool-cases (is_examined r)) [
    | inl e ↦ rw e (omega (arith, ap length p))
    | inr e ↦ rw e (omega (arith, ap length p))
  ]
  take-shrinks s u rest none p = elim (Bool-cases (is_left_out c s.exhausted u)) [
    | inl l ↦ rw l (omega (arith, ap length p))
    | inr l ↦ rw l (omega (arith, ap length p))
  ]

  end-shrinks :
      (s : Execution P) (i : ℕ) (u : WorkUnit)
      → Counted workers units s
      → s.running i ≡ true
      → i < s.next
      → steps_left (end_unit c i u s) < steps_left s
  unfolding end_unit
  end-shrinks s i u h on lt =
      let less = count_set-off s.running i s.next on lt in
      elim (Bool-cases (is_examined (review_unit c u).0)) [
        | inl e ↦ rw e (omega (arith, less, h.busy))
        | inr e ↦ rw e (omega (arith, less, h.busy))
      ]

  step-shrinks :
      (s t : Execution P)
      → Explained c units s
      → Counted workers units s
      → Step c workers units s t
      → steps_left t < steps_left s
  step-shrinks s t k h (taken u rest p lt) = take-shrinks s u rest (c.cached u) p
  step-shrinks s t k h (ended i u on at) = end-shrinks s i u h on (k.below i on)

  busy_step :
      (s : Execution P)
      → Explained c units s
      → Counted workers units s
      → 0 < s.counts.running
      → (t : Execution P) × Step c workers units s t
  busy_step s k h lt =
      let (i, (on, low)) = count_set-some s.running s.next (omega (arith, h.busy, lt)) in
      let (u, at) = get_elem_below units i (omega (arith, low, k.within)) in
      (end_unit c i u s, ended i u on at)

  next_step :
      (s : Execution P) (pending : List WorkUnit)
      → s.pending ≡ pending
      → 0 < workers
      → Explained c units s
      → Counted workers units s
      → Finished s ⊎ ((t : Execution P) × Step c workers units s t)
  next_step s (u ∷ rest) p w k h = elim (Bool-cases (ltb s.counts.running workers)) [
    | inl e ↦ inr (take_unit c u rest s, taken u rest p (ltb→lt s.counts.running workers e))
    | inr e ↦ inr (busy_step s k h (ground (arith, e, w)))
  ]
  next_step s [] p w k h = elim (Bool-cases (ltb 0 s.counts.running)) [
    | inl e ↦ inr (busy_step s k h (ltb→lt 0 s.counts.running e))
    | inr e ↦ inl (record {
      none_left = p;
      none_busy = λ i. elim (Bool-cases (s.running i)) [
        | inl on ↦ count_set-none s.running s.next i (ground (arith, h.busy, e)) (k.below i on)
        | inr off ↦ off
      ];
    })
  ]

  -- With a worker, a reachable state is the end or has a next step, and every step makes a number
  -- smaller, twice the units not taken plus those running.
  pub execute_ends :
      (s : Execution P)
      → 0 < workers
      → Reach c workers units s
      → (Finished s ⊎ ((t : Execution P) × Step c workers units s t))
        × ((t : Execution P) → Step c workers units s t → steps_left t < steps_left s)
  execute_ends s w reach =
      let k = Reach-Explained c units workers s reach in
      let h = Reach-Counted c workers units s reach in
      (next_step s s.pending refl w k h, λ t step. step-shrinks s t k h step)
