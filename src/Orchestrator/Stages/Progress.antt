-- ===== src/Orchestrator/Stages/Progress.antt =====
-- The progress that is reported, and that the workers come to an end
-- (reviewer/orchestrator/stages.py).
use code_reviewer.Prelude.{
  ℕ, zero, suc, ◌+◌, ◌≤◌, ◌<◌, ◌≡◌, refl, sym, ap, ◌∙◌, inl, inr, Bool, true, false, Option, none,
  some, List, ◌∷◌, arith, ◌==◌, if◌then◌else◌, Bool-cases, length, ==_iff,
}
use code_reviewer.Orchestrator.Stages.{
  StageResult, Calls, leave_out, review_unit, end_unit, Execution, WorkUnit, Step, taken, ended,
  Reach, begins, steps, set, settled, begun, begin, take_with, is_left_out, is_examined,
}
use code_reviewer.Orchestrator.Stages.Runs.{idle_next, Explained, Reach-Explained}

-- How many indices below n are set.
unfoldable pub count_set : (ℕ → Bool) → ℕ → ℕ
count_set f zero = 0
count_set f (suc n) = let rest = count_set f n in if f n then rest + 1 else rest

count_set-agree :
    (f g : ℕ → Bool) (n : ℕ) → ((j : ℕ) → j < n → f j ≡ g j) → count_set f n ≡ count_set g n
unfolding count_set
count_set-agree f g zero h = refl
count_set-agree f g (suc n) h =
    let rest = count_set-agree f g n (λ j k. h j (omega (arith, k))) in
    rw (h n (omega arith), rest) refl

pub count_set-off :
    (f : ℕ → Bool) (i n : ℕ) → f i ≡ true → i < n → count_set (set f i false) n + 1 ≡ count_set f n
unfolding count_set
count_set-off f i zero h lt = absurd (omega (arith, lt))
count_set-off f i (suc n) h lt = elim (Bool-cases (n == i)) [
  | inl e ↦
      let same : i ≡ n = sym ((==_iff n i).0 e) in
      let on : f n ≡ true = ap f (sym same) ∙ h in
      let rest : count_set (set f i false) n ≡ count_set f n =
        count_set-agree (set f i false) f n (λ j k. ground (arith, k, same)) in
      rw (e, on, rest) refl
  | inr e ↦ let rest = count_set-off f i n h (ground (arith, lt, e)) in ground (arith, rest, e)
]

count_set-next : (f : ℕ → Bool) (n : ℕ) → f n ≡ false → count_set f (n + 1) ≡ count_set f n
unfolding count_set
count_set-next f n h = let one : n + 1 ≡ suc n = omega arith in ap (count_set f) one ∙ rw h refl

count_set-on : (f : ℕ → Bool) (n : ℕ) → count_set (set f n true) (n + 1) ≡ count_set f n + 1
unfolding count_set
count_set-on f n =
    let one : n + 1 ≡ suc n = omega arith in
    let same : count_set (set f n true) n ≡ count_set f n =
      count_set-agree (set f n true) f n (λ j k. ground (arith, k)) in
    let hit : (n == n) ≡ true = ground arith in
    ap (count_set (set f n true)) one ∙ rw (hit, same) refl

-- Some index is set.
pub count_set-some : (f : ℕ → Bool) (n : ℕ) → 0 < count_set f n → (i : ℕ) × ((f i ≡ true) × (i < n))
unfolding count_set
count_set-some f zero h = absurd (omega (arith, h))
count_set-some f (suc n) h = elim (Bool-cases (f n)) [
  | inl e ↦ (n, (e, omega arith))
  | inr e ↦
      let k = count_set-some f n (ground (arith, h, e)) in (k.0, (k.1.0, omega (arith, k.1.1)))
]

pub count_set-none : (f : ℕ → Bool) (n i : ℕ) → count_set f n ≡ 0 → i < n → f i ≡ false
unfolding count_set
count_set-none f zero i h lt = absurd (omega (arith, lt))
count_set-none f (suc n) i h lt = elim (Bool-cases (f n)) [
  | inl e ↦ absurd (ground (arith, h, e))
  | inr e ↦ elim (Bool-cases (i == n)) [
    | inl k ↦ ap f ((==_iff i n).0 k) ∙ e
    | inr k ↦ count_set-none f n i (ground (arith, h, e)) (ground (arith, lt, k))
  ]
]

-- The counters tell the truth.
pub record Counted {ℓ} {P : Type ℓ} (workers : ℕ) (units : List WorkUnit) (s : Execution P)
    : Type 0 where
  pub total : s.counts.total ≡ length units
  pub sum :
      s.counts.completed + s.counts.running + s.counts.idle + s.counts.stopped ≡ s.counts.total
  pub idle : s.counts.idle ≡ length s.pending
  pub busy : s.counts.running ≡ count_set s.running s.next
  pub bound : s.counts.running ≤ workers

module _ {ℓ} {P : Type ℓ} (c : Calls P) (workers : ℕ) (units : List WorkUnit) where
  begin-Counted : Counted {P = P} workers units (begin units)
  unfolding count_set
  begin-Counted = record {
    total = refl;
    sum = omega arith;
    idle = refl;
    busy = refl;
    bound = omega arith;
  }

  settled-Counted :
      (s : Execution P) (u : WorkUnit) (rest : List WorkUnit) (r : StageResult P)
      → s.running s.next ≡ false
      → Counted workers units s
      → s.pending ≡ u ∷ rest
      → Counted workers units (settled c s.next u rest r s)
  settled-Counted s u rest r off h p =
      let left : s.counts.idle ≡ suc (length rest) = h.idle ∙ ap length p in
      elim (Bool-cases (is_examined r)) [
        | inl e ↦ rw e (record {
          total = h.total;
          sum = omega (arith, h.sum, left);
          idle = omega (arith, left);
          busy = h.busy ∙ sym (count_set-next s.running s.next off);
          bound = h.bound;
        })
        | inr e ↦ rw e (record {
          total = h.total;
          sum = omega (arith, h.sum, left);
          idle = omega (arith, left);
          busy = h.busy ∙ sym (count_set-next s.running s.next off);
          bound = h.bound;
        })
      ]

  begun-Counted :
      (s : Execution P) (u : WorkUnit) (rest : List WorkUnit)
      → s.counts.running < workers
      → Counted workers units s
      → s.pending ≡ u ∷ rest
      → Counted workers units (begun c s.next rest s)
  begun-Counted s u rest lt h p =
      let left : s.counts.idle ≡ suc (length rest) = h.idle ∙ ap length p in
      record {
        total = h.total;
        sum = omega (arith, h.sum, left);
        idle = omega (arith, left);
        busy = ap (λ n. n + 1) h.busy ∙ sym (count_set-on s.running s.next);
        bound = omega (arith, lt);
      }

  take-Counted :
      (s : Execution P) (u : WorkUnit) (rest : List WorkUnit) (o : Option (StageResult P))
      → s.counts.running < workers
      → s.running s.next ≡ false
      → Counted workers units s
      → s.pending ≡ u ∷ rest
      → Counted workers units (take_with c o u rest s)
  take-Counted s u rest (some r) lt off h p = settled-Counted s u rest r off h p
  take-Counted s u rest none lt off h p = elim (Bool-cases (is_left_out c s.exhausted u)) [
    | inl l ↦ rw l (settled-Counted s u rest (leave_out c s.exhausted u) off h p)
    | inr l ↦ rw l (begun-Counted s u rest lt h p)
  ]

  end-Counted :
      (s : Execution P) (i : ℕ) (u : WorkUnit)
      → s.running i ≡ true
      → i < s.next
      → Counted workers units s
      → Counted workers units (end_unit c i u s)
  unfolding end_unit
  end-Counted s i u on lt h =
      let less = count_set-off s.running i s.next on lt in
      elim (Bool-cases (is_examined (review_unit c u).0)) [
        | inl e ↦ rw e (record {
          total = h.total;
          sum = omega (arith, h.sum, h.busy, less);
          idle = h.idle;
          busy = omega (arith, less, h.busy);
          bound = omega (arith, h.bound);
        })
        | inr e ↦ rw e (record {
          total = h.total;
          sum = omega (arith, h.sum, h.busy, less);
          idle = h.idle;
          busy = omega (arith, less, h.busy);
          bound = omega (arith, h.bound);
        })
      ]

  step-Counted :
      (s t : Execution P)
      → Explained c units s
      → Counted workers units s
      → Step c workers units s t
      → Counted workers units t
  step-Counted s t k h (taken u rest p lt) =
      take-Counted s u rest (c.cached u) lt (idle_next c units s k) h p
  step-Counted s t k h (ended i u on at) = end-Counted s i u on (k.below i on) h

  -- In every reachable state the completed, running, idle and stopped units add up to all units,
  -- the idle ones are those not taken, the running ones those that a worker is busy with, and they
  -- are at most the workers.
  pub Reach-Counted : (s : Execution P) → Reach c workers units s → Counted workers units s
  Reach-Counted s begins = begin-Counted
  Reach-Counted t (steps {s = s} reach step) =
      step-Counted s t (Reach-Explained c units workers s reach) (Reach-Counted s reach) step
