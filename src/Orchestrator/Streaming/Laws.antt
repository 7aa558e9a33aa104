-- ===== src/Orchestrator/Streaming/Laws.antt =====
-- Laws of the early work: its result, and when it starts
-- (reviewer/orchestrator/streaming.py).
use code_reviewer.Prelude.{
  String, ◌≡◌, refl, sym, ◌∙◌, inl, inr, Bool, true, false, none, some, List, [], ◌∷◌, ◌++◌, map,
  arith, ◌==◌, Bool-cases, Option-cases, all, All, eq_of_some,
}
use code_reviewer.Prelude.Text.{str_eq, str_mem, eq_of_str_eq}
use code_reviewer.Orchestrator.Streaming.{occurrences}
use code_reviewer.Orchestrator.Streaming.{
  count_down, collect, start_if, or_zero, new_stream, work_on, planned, lookup, finished,
  finish_files, finish, Paths, Work, Dict, without, same_counts, Early, FileStream, start_ready,
  may_start, begin, by_file, plan_paths,
}
use mathlib.Core.Path.{subst}
use code_reviewer.Prelude.Int.{pos, ltb_ℤ}

same_counts_refl : (ks : List String) → same_counts ks ks ≡ true
unfolding same_counts
same_counts_refl ks = counted (ks ++ ks)
  where
    counted : (js : List String) → all (λ k. occurrences k ks == occurrences k ks) js ≡ true
    counted [] = refl
    counted (j ∷ js) = ground (arith, counted js)

module _ {ℓ} {P F : Type ℓ} (w : Work P F) where
  open w use {key, prepare}

  -- The result without any early work: each file's proposals are worked on, in order.
  pub batch_files : Dict (List P) → List F × List F
  batch_files [] = ([], [])
  batch_files ((p, items) ∷ d) =
      let (values, dropped) = prepare items in
      let (findings, discarded) = batch_files d in (values ++ findings, dropped ++ discarded)

  -- An early task worked on the proposals whose keys it keeps.
  abbrev Sound : Dict (Early w) → Type ℓ
  Sound started = All (λ e. (xs : List P) × (e.1 ≡ begin w xs)) started

  Sound-start_if :
      (b : Bool) (p : String) (xs : List P) (s : FileStream w)
      → Sound s.started
      → Sound (start_if w b p xs s).started
  Sound-start_if true p xs s h = ((xs, refl), h)
  Sound-start_if false p xs s h = h

  Sound-start_ready :
      (d : Dict (List P)) (s : FileStream w) → Sound s.started → Sound (start_ready w d s).started
  unfolding start_ready
  Sound-start_ready [] s h = h
  Sound-start_ready ((p, xs) ∷ d) s h =
      Sound-start_ready d (start_if w (may_start w s p) p xs s)
        (Sound-start_if (may_start w s p) p xs s h)

  Sound-without : (p : String) (d : Dict (Early w)) → Sound d → Sound (without p d)
  unfolding without
  Sound-without p [] h = tt
  Sound-without p ((q, e) ∷ d) h = elim (Bool-cases (str_eq q p)) [
    | inl k ↦ rw k (Sound-without p d h.1)
    | inr k ↦ rw k (h.0, Sound-without p d h.1)
  ]

  plan_paths-started :
      (ps : List String) (s : FileStream w) → (plan_paths w ps s).started ≡ s.started
  unfolding plan_paths
  plan_paths-started [] s = refl
  plan_paths-started (p ∷ ps) s = plan_paths-started ps _

  -- The files and, for each, the proposals with the same keys as often, in any order.
  abbrev pub SameInputs : Dict (List P) → Dict (List P) → Type 0
  SameInputs [] [] = Unit {0}
  SameInputs ((p, xs) ∷ d) ((q, ys) ∷ e) =
      (p ≡ q) × (same_counts (map key xs) (map key ys) ≡ true) × SameInputs d e
  SameInputs _ _ = ⊥

  lookup-Sound :
      (p : String) (started : Dict (Early w)) (e : Early w)
      → Sound started
      → lookup p started ≡ some e
      → (xs : List P) × (e ≡ begin w xs)
  unfolding lookup
  lookup-Sound p [] e h found = cc
  lookup-Sound p ((q, f) ∷ d) e h found = elim (Bool-cases (str_eq q p)) [
    | inl k ↦ let same : f ≡ e = eq_of_some f e (rw k at found) in (h.0.0, sym same ∙ h.0.1)
    | inr k ↦ lookup-Sound p d e h.1 (rw k at found)
  ]

  work_on-prepare :
      (p : String) (items : List P) (started : Dict (Early w))
      → Sound started
      → (xs : List P) × (same_counts (map key xs) (map key items) ≡ true)
        × (work_on w (lookup p started) items ≡ prepare xs)
  unfolding work_on
  work_on-prepare p items started h = elim (Option-cases (lookup p started)) [
    | inl e ↦ (items, same_counts_refl (map key items), rw e refl)
    | inr (early, e) ↦
        let (xs, same) = lookup-Sound p started early h e in
        elim (Bool-cases (same_counts (map key xs) (map key items))) [
          | inl k ↦ (xs, k, rw (e, same, k) refl)
          | inr k ↦ (items, same_counts_refl (map key items), rw (e, same, k) refl)
        ]
  ]

  finish_files-inputs :
      (d : Dict (List P)) (started : Dict (Early w))
      → Sound started
      → (inputs : Dict (List P)) × SameInputs inputs d
        × (finish_files w d started ≡ batch_files inputs)
  unfolding finish_files batch_files
  finish_files-inputs [] started h = ([], tt, refl)
  finish_files-inputs ((p, items) ∷ d) started h =
      let (xs, same, worked) = work_on-prepare p items started h in
      let (inputs, fits, rest) =
        finish_files-inputs d (without p started) (Sound-without p started h) in
      ((p, xs) ∷ inputs, (refl, same, fits), rw (worked, rest) refl)

  -- What is done with a stream before `finish`.
  pub data Call : Type ℓ where
    plans : List Paths → Call
    finishes : Paths → List P → Call

  pub run : List Call → FileStream w → FileStream w
  run [] s = s
  run (plans us ∷ cs) s = run cs (planned w us s)
  run (finishes unit found ∷ cs) s = run cs (finished w unit found s)

  planned-started : (us : List Paths) (s : FileStream w) → (planned w us s).started ≡ s.started
  unfolding planned
  planned-started [] s = refl
  planned-started (u ∷ us) s = planned-started us (plan_paths w u s) ∙ plan_paths-started u s

  run-Sound : (cs : List Call) (s : FileStream w) → Sound s.started → Sound (run cs s).started
  unfolding run finished
  run-Sound [] s h = h
  run-Sound (plans us ∷ cs) s h =
      run-Sound cs (planned w us s) (subst Sound (sym (planned-started us s)) h)
  run-Sound (finishes unit found ∷ cs) s h =
      let t = record s {
        inputs = collect w found s.inputs;
        pending = count_down w unit s.pending;
      } in
      run-Sound cs (start_ready w t.inputs t) (Sound-start_ready t.inputs t h)

  -- After any calls of planned and finished, the result of finish is that of working once on each
  -- file of the final proposals, in the order of the files, on proposals with the same keys as
  -- often as the file has in the end, though maybe in another order.
  pub finish-batch :
      (cs : List Call) (proposals : List P)
      → (inputs : Dict (List P)) × SameInputs inputs (by_file w proposals)
        × ((finish w proposals (run cs (new_stream w))).0 ≡ batch_files inputs)
  unfolding finish
  finish-batch cs proposals =
      finish_files-inputs (by_file w proposals) (run cs (new_stream w)).started
        (run-Sound cs (new_stream w) tt)

  -- A file that was planned, and that no pending unit can add to.
  abbrev pub IsReady : String → FileStream w → Type 0
  IsReady p s =
      (str_mem p s.planned_paths ≡ true) × (ltb_ℤ (pos 0) (or_zero (lookup p s.pending)) ≡ false)

  may_start-IsReady : (s : FileStream w) (p : String) → may_start w s p ≡ true → IsReady p s
  unfolding may_start
  may_start-IsReady s p h = ground arith

  -- Starting work leaves the counters alone.
  IsReady-start_if :
      (b : Bool) (q : String) (xs : List P) (p : String) (s : FileStream w)
      → IsReady p (start_if w b q xs s)
      → IsReady p s
  IsReady-start_if true q xs p s h = h
  IsReady-start_if false q xs p s h = h

  start_ready-counters :
      (p : String) (d : Dict (List P)) (s : FileStream w)
      → IsReady p s
      → IsReady p (start_ready w d s)
  unfolding start_ready
  start_ready-counters p [] s h = h
  start_ready-counters p ((q, xs) ∷ d) s h =
      start_ready-counters p d (start_if w (may_start w s q) q xs s)
        (IsReady-back (may_start w s q) q xs s h)
    where
      IsReady-back :
          (b : Bool) (r : String) (ys : List P) (t : FileStream w)
          → IsReady p t
          → IsReady p (start_if w b r ys t)
      IsReady-back true r ys t k = k
      IsReady-back false r ys t k = k

  -- Work that one step started was ready.
  start_if-IsReady :
      (q : String) (xs : List P) (p : String) (s : FileStream w) (e : Early w)
      → lookup p s.started ≡ none
      → lookup p (start_if w (may_start w s q) q xs s).started ≡ some e
      → IsReady p s
  unfolding lookup
  start_if-IsReady q xs p s e before after = elim (Bool-cases (may_start w s q)) [
    | inr k ↦ absurd (none_some (sym before ∙ (rw k at after)))
    | inl k ↦ elim (Bool-cases (str_eq q p)) [
      | inl m ↦ subst (λ r. IsReady r s) (eq_of_str_eq q p m) (may_start-IsReady s q k)
      | inr m ↦ absurd (none_some (sym before ∙ (rw (k, m) at after)))
    ]
  ]
    where
      none_some : ¬ (none ≡ some e)
      none_some h = cc

  start_ready-IsReady :
      (p : String) (d : Dict (List P)) (s : FileStream w) (e : Early w)
      → lookup p s.started ≡ none
      → lookup p (start_ready w d s).started ≡ some e
      → IsReady p s
  unfolding start_ready
  start_ready-IsReady p [] s e before after = absurd (none_some (sym before ∙ after))
    where
      none_some : ¬ (none ≡ some e)
      none_some h = cc
  start_ready-IsReady p ((q, xs) ∷ d) s e before after =
      let t = start_if w (may_start w s q) q xs s in
      elim (Option-cases (lookup p t.started)) [
        | inl k ↦ IsReady-start_if (may_start w s q) q xs p s (start_ready-IsReady p d t e k after)
        | inr (f, k) ↦ start_if-IsReady q xs p s f before k
      ]

  -- A step finished that starts work on a file without any does so only if the file was planned
  -- and no pending unit is left that contains it.
  pub finished-IsReady :
      (unit : Paths) (found : List P) (s : FileStream w) (p : String) (e : Early w)
      → lookup p s.started ≡ none
      → lookup p (finished w unit found s).started ≡ some e
      → IsReady p (finished w unit found s)
  unfolding finished
  finished-IsReady unit found s p e before after =
      let t = record s {
        inputs = collect w found s.inputs;
        pending = count_down w unit s.pending;
      } in
      start_ready-counters p t.inputs t (start_ready-IsReady p t.inputs t e before after)
