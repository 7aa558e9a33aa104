-- ===== src/Orchestrator/Stages/Runs.antt =====
-- The workers in any interleaving (reviewer/orchestrator/stages.py).
use code_reviewer.Prelude.{
  ℕ, zero, suc, ◌+◌, ◌≤◌, ◌<◌, ◌≡◌, refl, sym, ap, ◌∙◌, inl, inr, Bool, true, false, not, ◌&&◌,
  Option, none, some, List, [], ◌∷◌, map, arith, ltb, ◌==◌, Bool-cases, length, drop, get_elem?,
  ==_iff, eq_of_some,
}
use code_reviewer.Orchestrator.Stages.{
  merge, no_result, stage_result, take_with, leave_out, is_left_out, put, StageResult, review_unit,
  end_unit, Execution, WorkUnit, Calls, Step, taken, ended, Reach, begins, steps, set, settled,
  begun, begin,
}
use mathlib.Core.Path.{ap₂, subst}
use code_reviewer.Orchestrator.Stages.Order.{
  results_from, picked-all, final_result, picked-none, put-picked, picked-agree, picked,
  final_result,
}

below_length {ℓ} :
    {A : Type ℓ} (xs : List A) (n : ℕ) (a : A) → get_elem? xs n ≡ some a → n < length xs
below_length [] n a h = absurd (ground (arith, h))
below_length (x ∷ xs) zero a h = omega arith
below_length (x ∷ xs) (suc n) a h = omega (arith, below_length xs n a h)

drop_cons_lem {ℓ} :
    {A : Type ℓ} (xs : List A) (n : ℕ) (a : A) (rest : List A)
    → drop n xs ≡ a ∷ rest
    → (get_elem? xs n ≡ some a) × (rest ≡ drop (n + 1) xs)
drop_cons_lem [] zero a rest h = absurd (ground (arith, h))
drop_cons_lem [] (suc n) a rest h = absurd (ground (arith, h))
drop_cons_lem (x ∷ xs) zero a rest h = (ap (λ l. get_elem? l 0) h, sym (ap (drop 1) h))
drop_cons_lem (x ∷ xs) (suc n) a rest h =
    let k = drop_cons_lem xs n a rest h in
    let same : suc (n + 1) ≡ suc n + 1 = omega arith in (k.0, k.1 ∙ ap (λ m. drop m (x ∷ xs)) same)

module _ {ℓ} {P : Type ℓ} (c : Calls P) (units : List WorkUnit) where
  abbrev is_done : Execution P → ℕ → Bool
  is_done s j = ltb j s.next && not (s.running j)

  -- No call raises `BudgetExhausted`.
  abbrev pub WithinBudget : Type 0
  WithinBudget = (u : WorkUnit) → (review_unit c u).1 ≡ false

  -- What an execution has made so far: `seen` says which units were taken with the flag set.
  pub record Explained (s : Execution P) : Type ℓ where
    pub seen : ℕ → Bool
    pub left : s.pending ≡ drop s.next units
    pub below : (i : ℕ) → s.running i ≡ true → i < s.next
    pub within : s.next ≤ length units
    pub at_work :
        (i : ℕ) (u : WorkUnit)
        → s.running i ≡ true
        → get_elem? units i ≡ some u
        → final_result c (seen i) u ≡ (review_unit c u).0
    pub done : s.completed ≡ picked c (is_done s) seen 0 units
    pub quiet : WithinBudget → (s.exhausted ≡ false) × ((i : ℕ) → seen i ≡ false)

  pub idle_next : (s : Execution P) → Explained s → s.running s.next ≡ false
  idle_next s h = elim (Bool-cases (s.running s.next)) [
    | inl e ↦ absurd (omega (arith, h.below s.next e))
    | inr e ↦ e
  ]

  begin-Explained : Explained (begin units)
  begin-Explained = record {
    seen = λ i. false;
    left = refl;
    below = λ i h. ground (arith, h);
    within = omega arith;
    at_work = λ i u h at. ground (arith, h);
    done = sym (picked-none c (is_done (begin units)) (λ i. false) 0 units (λ j. ground arith));
    quiet = λ h. (refl, λ i. refl);
  }

  -- The unit that is taken stands at the index `next`.
  taken_at :
      (s : Execution P) (u : WorkUnit) (rest : List WorkUnit)
      → Explained s
      → s.pending ≡ u ∷ rest
      → (get_elem? units s.next ≡ some u) × (rest ≡ drop (s.next + 1) units)
  taken_at s u rest h p = drop_cons_lem units s.next u rest (sym h.left ∙ p)

  settled-Explained :
      (s : Execution P) (u : WorkUnit) (rest : List WorkUnit)
      → Explained s
      → s.pending ≡ u ∷ rest
      → (r : StageResult P) → final_result c s.exhausted u ≡ r
      → Explained (settled c s.next u rest r s)
  settled-Explained s u rest h p r e =
      let at = taken_at s u rest h p in
      record {
        seen = set h.seen s.next s.exhausted;
        left = at.1;
        below = λ i k. ground (arith, h.below i k);
        within = omega (arith, below_length units s.next u at.0);
        at_work = λ i v k a.
            (let ne : (i == s.next) ≡ false = ground (arith, h.below i k) in
              rw ne (h.at_work i v k a));
        done =
            let seen = set h.seen s.next s.exhausted in
            let hit : (s.next == s.next) ≡ true = ground arith in
            let same : r ≡ final_result c (seen s.next) u = rw hit (sym e) in
            let idle : s.running s.next ≡ false = idle_next s h in
            let agree : picked c (is_done s) h.seen 0 units ≡ picked c (is_done s) seen 0 units =
              picked-agree c (is_done s) (is_done s) h.seen seen 0 units (λ j k. refl)
                (λ j k d. ground (arith, d)) in
            ap₂ (put s.next) same (h.done ∙ agree)
            ∙ put-picked c (is_done s) (is_done (settled c s.next u rest r s)) seen s.next s.next 0
                u units at.0 (omega arith) (ground arith) (λ j. ground (arith, idle));
        quiet = λ b. ((h.quiet b).0, λ i. ground (arith, (h.quiet b).0, (h.quiet b).1 i));
      }

  begun-Explained :
      (s : Execution P) (u : WorkUnit) (rest : List WorkUnit)
      → Explained s
      → s.pending ≡ u ∷ rest
      → final_result c s.exhausted u ≡ (review_unit c u).0
      → Explained (begun c s.next rest s)
  begun-Explained s u rest h p e =
      let at = taken_at s u rest h p in
      record {
        seen = set h.seen s.next s.exhausted;
        left = at.1;
        below = λ i k. ground (arith, h.below i, k);
        within = omega (arith, below_length units s.next u at.0);
        at_work = λ i v k a. elim (Bool-cases (i == s.next)) [
          | inl y ↦
              let there : get_elem? units s.next ≡ some v =
                ap (get_elem? units) (sym ((==_iff i s.next).0 y)) ∙ a in
              let same : u ≡ v = eq_of_some u v (sym at.0 ∙ there) in
              rw y (subst (λ w. final_result c s.exhausted w ≡ (review_unit c w).0) same e)
          | inr y ↦ rw y (h.at_work i v (ground (arith, k, y)) a)
        ];
        done =
            let seen = set h.seen s.next s.exhausted in
            h.done
            ∙ picked-agree c (is_done s) (is_done (begun c s.next rest s)) h.seen seen 0 units
                (λ j k. ground arith) (λ j k d. ground (arith, d));
        quiet = λ b. ((h.quiet b).0, λ i. ground (arith, (h.quiet b).0, (h.quiet b).1 i));
      }

  ended-Explained :
      (s : Execution P) (i : ℕ) (u : WorkUnit)
      → Explained s
      → s.running i ≡ true
      → get_elem? units i ≡ some u
      → Explained (end_unit c i u s)
  unfolding end_unit
  ended-Explained s i u h run at = record {
    seen = h.seen;
    left = h.left;
    below = λ j k. ground (arith, h.below j, k);
    within = h.within;
    at_work = λ j v k a. h.at_work j v (ground (arith, k)) a;
    done =
        let off : is_done s i ≡ false = ground (arith, run) in
        ap₂ (put i) (sym (h.at_work i u run at)) h.done
        ∙ put-picked c (is_done s) (is_done (end_unit c i u s)) h.seen i i 0 u units at
            (omega arith) off (λ j. ground (arith, h.below i run));
    quiet = λ b. (ground (arith, (h.quiet b).0, b u), (h.quiet b).1);
  }

  take-Explained :
      (s : Execution P) (u : WorkUnit) (rest : List WorkUnit) (o : Option (StageResult P))
      → Explained s
      → s.pending ≡ u ∷ rest
      → c.cached u ≡ o
      → Explained (take_with c o u rest s)
  take-Explained s u rest (some r) h p e = settled-Explained s u rest h p r (rw e refl)
  take-Explained s u rest none h p e = elim (Bool-cases (is_left_out c s.exhausted u)) [
    | inl l ↦ rw l (settled-Explained s u rest h p (leave_out c s.exhausted u) (rw (e, l) refl))
    | inr l ↦ rw l (begun-Explained s u rest h p (rw (e, l) refl))
  ]

  step-Explained :
      (workers : ℕ) (s t : Execution P) → Explained s → Step c workers units s t → Explained t
  step-Explained workers s t h (taken u rest p lt) = take-Explained s u rest (c.cached u) h p refl
  step-Explained workers s t h (ended i u run at) = ended-Explained s i u h run at

  pub Reach-Explained : (workers : ℕ) (s : Execution P) → Reach c workers units s → Explained s
  Reach-Explained workers s begins = begin-Explained
  Reach-Explained workers t (steps {s = s} reach step) =
      step-Explained workers s t (Reach-Explained workers s reach) step

-- The workers are done.
pub record Finished {ℓ} {P : Type ℓ} (s : Execution P) : Type 0 where
  pub none_left : s.pending ≡ []
  pub none_busy : (i : ℕ) → s.running i ≡ false

drop-nil {ℓ} : {A : Type ℓ} (xs : List A) (n : ℕ) → drop n xs ≡ [] → length xs ≤ n
drop-nil [] n h = omega arith
drop-nil (x ∷ xs) zero h = absurd (ground (arith, h))
drop-nil (x ∷ xs) (suc n) h = omega (arith, drop-nil xs n h)

module _ {ℓ} {P : Type ℓ} (c : Calls P) (units : List WorkUnit) where
  pub Finished-completed :
      (s : Execution P) (h : Explained c units s)
      → Finished s
      → s.completed ≡ results_from c h.seen 0 units
  Finished-completed s h f =
      let all_taken : length units ≤ s.next = drop-nil units s.next (sym h.left ∙ f.none_left) in
      h.done
      ∙ picked-all c (is_done c units s) h.seen 0 units
          (λ j k. ground (arith, k, all_taken, f.none_busy j))

  map-results :
      (seen : ℕ → Bool) (n : ℕ) (us : List WorkUnit)
      → ((i : ℕ) → seen i ≡ false)
      → map (λ e. e.1) (results_from c seen n us) ≡ map (final_result c false) us
  unfolding results_from
  map-results seen n [] h = refl
  map-results seen n (u ∷ us) h =
      ap₂ (λ b xs. final_result c b u ∷ xs) (h n) (map-results seen (n + 1) us h)

  -- Where no call exhausts the budget, the workers leave, in every interleaving and for any number
  -- of them, the result of working on the units one after the other in their order.
  pub execute_in_any_order :
      (workers : ℕ) (s : Execution P)
      → WithinBudget c units
      → Reach c workers units s
      → Finished s
      → stage_result s ≡ merge no_result (map (final_result c false) units)
  execute_in_any_order workers s within reach f =
      let h = Reach-Explained c units workers s reach in
      ap (λ d. merge no_result (map (λ e. e.1) d)) (Finished-completed s h f)
      ∙ ap (merge no_result) (map-results h.seen 0 units (h.quiet within).1)
