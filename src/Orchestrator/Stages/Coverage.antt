-- ===== src/Orchestrator/Stages/Coverage.antt =====
-- Every unit is accounted for (reviewer/orchestrator/stages.py).
use code_reviewer.Prelude.{
  ℕ, zero, suc, ◌+◌, String, ◌≡◌, refl, sym, ap, ◌∙◌, ◌⊎◌, inl, inr, Bool, true, ◌&&◌, ◌||◌, Option,
  none, some, List, [], ◌∷◌, ◌++◌, map, arith, Bool-cases, any, get_elem?, eq_of_some,
}
use code_reviewer.Prelude.Text.{str_eq, str_mem, str_eq_refl}
use code_reviewer.Orchestrator.Stages.{
  examines, Execution, after_answer, last_of, is_left_out, review_unit, Envelope, WorkUnit,
  StageResult, Calls, Reach, merge, merge_two, stage_result, no_result, close, keep, extend,
  attempt, answered, out_of_budget, timed_out, raised, Answer,
}
use code_reviewer.Orchestrator.Stages.Order.{final_result, results_from, result_with}
use code_reviewer.Orchestrator.Stages.Runs.{Finished, Finished-completed, Reach-Explained}

str_mem-append :
    (a : String) (xs ys : List String) → str_mem a (xs ++ ys) ≡ (str_mem a xs || str_mem a ys)
str_mem-append a [] ys = refl
str_mem-append a (x ∷ xs) ys = ground (arith, str_mem-append a xs ys)

module _ {ℓ} {P : Type ℓ} where
  -- A result says of the unit that it was examined, or that it was skipped.
  abbrev pub covers : String → StageResult P → Bool
  covers a r = str_mem a r.examined || (str_mem a r.skipped && r.partial)

  covers-left :
      (a : String) (r t : StageResult P) → covers a r ≡ true → covers a (merge_two r t) ≡ true
  covers-left a r t h =
      ground
        (arith, h, str_mem-append a r.examined t.examined, str_mem-append a r.skipped t.skipped)

  covers-right :
      (a : String) (r t : StageResult P) → covers a t ≡ true → covers a (merge_two r t) ≡ true
  covers-right a r t h =
      ground
        (arith, h, str_mem-append a r.examined t.examined, str_mem-append a r.skipped t.skipped)

  merge-keeps :
      (a : String) (r : StageResult P) (ts : List (StageResult P))
      → covers a r ≡ true
      → covers a (merge r ts) ≡ true
  unfolding merge
  merge-keeps a r [] h = h
  merge-keeps a r (t ∷ ts) h = merge-keeps a (merge_two r t) ts (covers-left a r t h)

  merge-covers :
      (a : String) (r : StageResult P) (ts : List (StageResult P))
      → any (covers a) ts ≡ true
      → covers a (merge r ts) ≡ true
  unfolding merge
  merge-covers a r [] h = absurd (ground (arith, h))
  merge-covers a r (t ∷ ts) h = elim (Bool-cases (covers a t)) [
    | inl e ↦ merge-keeps a (merge_two r t) ts (covers-right a r t e)
    | inr e ↦ merge-covers a (merge_two r t) ts (ground (arith, e, h))
  ]

  -- Nothing, or one unit, was examined.
  abbrev OnlyUnit : WorkUnit → StageResult P → Type 0
  OnlyUnit u r = (r.examined ≡ []) ⊎ (r.examined ≡ u.id ∷ [])

  close-covers : (u : WorkUnit) (r : StageResult P) → OnlyUnit u r → covers u.id (close u r) ≡ true
  close-covers u r (inl h) =
      rw (h, str_mem-append u.id r.skipped (u.id ∷ []), str_eq_refl u.id) (ground arith)
  close-covers u r (inr h) = rw (h, str_eq_refl u.id) refl

module _ {ℓ} {P : Type ℓ} (c : Calls P) where
  extend-examined : (e : Envelope P) (r : StageResult P) → (extend c e r).examined ≡ r.examined
  extend-examined e r = elim (Bool-cases e.findings_truncated) [
    | inl t ↦ elim (Bool-cases (str_eq e.notes_for_summary "")) [
      | inl k ↦ rw (t, k) refl
      | inr k ↦ rw (t, k) refl
    ]
    | inr t ↦ elim (Bool-cases (str_eq e.notes_for_summary "")) [
      | inl k ↦ rw (t, k) refl
      | inr k ↦ rw (t, k) refl
    ]
  ]

  keep-OnlyUnit :
      (u : WorkUnit) (o : Option (Envelope P)) (r : StageResult P)
      → r.examined ≡ []
      → OnlyUnit u (keep c u o r)
  keep-OnlyUnit u none r h = inl h
  keep-OnlyUnit u (some e) r h = inr (rw (extend-examined e r, h) refl)

  after_answer-OnlyUnit :
      (u : WorkUnit) (s : StageResult P) (again : StageResult P → StageResult P × Bool)
      (a : Answer P)
      → s.examined ≡ []
      → ((t : StageResult P) → t.examined ≡ [] → OnlyUnit u (again t).0)
      → OnlyUnit u (after_answer c u s again a).0
  after_answer-OnlyUnit u s again (answered e) h rest =
      let none : (extend c e s).examined ≡ [] = extend-examined e s ∙ h in
      elim (Bool-cases (examines u e)) [
        | inl x ↦ rw x (inr (ap (λ l. l ++ (u.id ∷ [])) none))
        | inr x ↦ elim (Bool-cases (str_mem u.id e.units_skipped)) [
          | inl y ↦ rw (x, y) (inl none)
          | inr y ↦ rw (x, y) (rest (extend c e s) none)
        ]
      ]
  after_answer-OnlyUnit u s again out_of_budget h rest = inl h
  after_answer-OnlyUnit u s again (timed_out observed) h rest =
      keep-OnlyUnit u (last_of (examines u) observed) s h
  after_answer-OnlyUnit u s again raised h rest = inl h

  attempt-OnlyUnit :
      (u : WorkUnit) (left k : ℕ) (r : StageResult P)
      → r.examined ≡ []
      → OnlyUnit u (attempt c u left k r).0
  unfolding attempt
  attempt-OnlyUnit u zero k r h = inl h
  attempt-OnlyUnit u (suc left) k r h =
      after_answer-OnlyUnit u (record r { attempts = r.attempts + 1 })
        (λ s. attempt c u left (k + 1) s) (c.answer u k) h
        (λ t z. attempt-OnlyUnit u left (k + 1) t z)

  -- The stored results of earlier runs cover their units.
  abbrev pub CachedCover : Type ℓ
  CachedCover = (u : WorkUnit) (r : StageResult P) → c.cached u ≡ some r → covers u.id r ≡ true

  result_with-covers :
      (b : Bool) (u : WorkUnit) (o : Option (StageResult P))
      → CachedCover
      → c.cached u ≡ o
      → covers u.id (result_with c o b u) ≡ true
  unfolding review_unit
  result_with-covers b u (some r) cc e = cc u r e
  result_with-covers b u none cc e = elim (Bool-cases (is_left_out c b u)) [
    | inl l ↦ rw (l, str_eq_refl u.id) refl
    | inr l ↦
        rw l (close-covers u (attempt c u 2 0 no_result).0 (attempt-OnlyUnit u 2 0 no_result refl))
  ]

  results-cover :
      (seen : ℕ → Bool) (n i : ℕ) (us : List WorkUnit) (u : WorkUnit)
      → CachedCover
      → get_elem? us i ≡ some u
      → any (covers u.id) (map (λ e. e.1) (results_from c seen n us)) ≡ true
  unfolding results_from
  results-cover seen n i [] u cc at = absurd (ground (arith, at))
  results-cover seen n zero (v ∷ us) u cc at =
      ap
        (λ x.
          covers x.id (final_result c (seen n) v)
          || any (covers x.id) (map (λ e. e.1) (results_from c seen (n + 1) us)))
        (sym (eq_of_some v u at))
      ∙ ground (arith, result_with-covers (seen n) v (c.cached v) cc refl)
  results-cover seen n (suc i) (v ∷ us) u cc at =
      ground (arith, results-cover seen (n + 1) i us u cc at)

  -- If the stored results cover their units, then when the workers are done, in any interleaving
  -- and whatever the calls raise, each unit is reported as examined, or as skipped in a result
  -- that is partial.
  pub execute-covers :
      (workers : ℕ) (units : List WorkUnit) (s : Execution P) (i : ℕ) (u : WorkUnit)
      → CachedCover
      → Reach c workers units s
      → Finished s
      → get_elem? units i ≡ some u
      → covers u.id (stage_result s) ≡ true
  execute-covers workers units s i u cc reach f at =
      let h = Reach-Explained c units workers s reach in
      ap (λ d. covers u.id (merge no_result (map (λ e. e.1) d))) (Finished-completed c units s h f)
      ∙ merge-covers u.id no_result (map (λ e. e.1) (results_from c h.seen 0 units))
          (results-cover h.seen 0 i units u cc at)
