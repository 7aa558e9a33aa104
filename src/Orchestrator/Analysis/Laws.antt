-- ===== src/Orchestrator/Analysis/Laws.antt =====
-- What is verified and shown of a run's findings (reviewer/orchestrator/pipeline.py).
use code_reviewer.Prelude.{
  ◌≤◌, String, ◌≡◌, refl, ap, inl, inr, Bool, true, false, not, ◌&&◌, ◌||◌, Option, List, [], ◌∷◌,
  map, arith, leb, if◌then◌else◌, Bool-cases, select_if, All, take, drop, All-map,
}
use code_reviewer.Prelude.Text.{str_eq}
use code_reviewer.Findings.Models.{suppressed, Finding, is_closed, is_local, is_verified}
use code_reviewer.Findings.Policy.{needs_verification, normalize, is_hidden}
use code_reviewer.Findings.Dedup.{deduplicate}
use code_reviewer.Orchestrator.Verification.{verify_where, verify_finding, is_left}
use code_reviewer.Prelude.Sorting.{sort_by}
use code_reviewer.Orchestrator.Analysis.{
  not_after, settle_one, is_existing, is_discarded, unpublishable, is_introduced, Run, existing,
  prepare, skipped, settle, is_none, mem_ids, is_shown,
}
use code_reviewer.Orchestrator.Analysis.Effects.{
  Effect, unchanged, given, verify_finding-Effect, select_if-members, any-sort_by, any-take,
}

-- A finding with a verdict, or that needs none.
abbrev pub is_answered : Finding → Bool
is_answered f = not (is_none f.verification) || is_left f

-- What is prepared of a file: a publishable finding on the change's own code is answered.
abbrev pub is_ready : Run → Finding → Bool
is_ready r f = not (is_introduced r f) || is_answered f

Effect-answered : (f g : Finding) → Effect f g → is_answered g ≡ true
Effect-answered f g (unchanged h) = ground (arith, h)
Effect-answered f g (given w st) = refl

Effect-introduced : (r : Run) (f g : Finding) → Effect f g → is_introduced r g ≡ is_introduced r f
unfolding is_hidden
Effect-introduced r f g (unchanged h) = refl
Effect-introduced r f g (given w st) = refl

verify_where-ready :
    (r : Run) (fs : List Finding)
    → All (λ f. is_ready r f ≡ true) (verify_where r.verifier (is_introduced r) fs)
unfolding verify_where
verify_where-ready r [] = tt
verify_where-ready r (f ∷ fs) =
    let rest = verify_where-ready r fs in
    elim (Bool-cases (is_introduced r f)) [
      | inl x ↦ rw x (
          (
            ground (
              arith,
              Effect-answered f (verify_finding r.verifier f).0
                  (verify_finding-Effect r.verifier f),
            ),
            rest,
          ))
      | inr x ↦ rw x ((ground (arith, x), rest))
    ]

pub prepare-ready :
    (r : Run) (proposals : List Finding)
    → 6 ≤ r.level
    → All (λ f. is_ready r f ≡ true) (prepare r proposals).0
unfolding prepare
prepare-ready r proposals level =
    let on : leb 6 r.level ≡ true = ground (arith, level) in
    rw on (
      verify_where-ready r (
        deduplicate r.unicode r.merge_distance
          (select_if (λ f. not (is_discarded f.status)) (map r.validated proposals))))

skipped-none :
    (r : Run) (f : Finding) (b : Bool)
    → is_none (skipped r f b) ≡ (not (unpublishable r f) && (not b && not (is_left f)))
unfolding skipped is_hidden
skipped-none r f b = ground arith

pub normalize-verification :
    (f : Finding) (touched categories : List String)
    → (normalize f touched categories).verification ≡ f.verification
unfolding normalize
normalize-verification f touched categories = elim (Bool-cases (is_closed f.status)) [
  | inl x ↦ rw x refl
  | inr x ↦ elim (Bool-cases (not (is_local f.evidence_scope) && not (is_verified f))) [
    | inl y ↦ rw (x, y) refl
    | inr y ↦ rw (x, y) refl
  ]
]

-- A verdict, or the reason why there is none.
abbrev pub is_explained : Finding × Option String → Bool
is_explained s = not (is_none s.0.verification) || not (is_none s.1)

-- Suppressing a finding changes no reason.
skipped-suppressed :
    (r : Run) (g : Finding) (b : Bool)
    → skipped r (record g { status = suppressed }) b ≡ skipped r g b
unfolding skipped needs_verification
skipped-suppressed r g b = refl

settle_one-cases :
    (r : Run) (b : Bool) (g : Finding)
    → (is_none g.verification && (not (unpublishable r g) && (not b && not (is_left g)))) ≡ false
    → is_explained (settle_one r b g) ≡ true
settle_one-cases r true g h =
    let shut = record g { status = suppressed } in
    elim (Bool-cases (is_none g.verification)) [
      | inr x ↦ rw (normalize-verification shut r.touched r.categories, x) refl
      | inl x ↦
          rw
            (
              normalize-verification shut r.touched r.categories,
              x,
              skipped-suppressed r g true,
              skipped-none r g true,
            )
            (ground arith)
    ]
settle_one-cases r false g h = elim (Bool-cases (is_none g.verification)) [
  | inr x ↦ rw (normalize-verification g r.touched r.categories, x) refl
  | inl x ↦
      rw (normalize-verification g r.touched r.categories, x, skipped-none r g false)
        (ground (arith, h, x))
]

module _ (r : Run) (order : List Finding) where
  -- A finding as `settle` judges it.
  abbrev pub judged : Finding → Finding
  judged f = if is_shown (take 2 order) f then (verify_finding r.verifier f).0 else f

  -- A pre-existing publishable finding is among those that are sorted.
  abbrev is_placed : Finding → Bool
  is_placed f = not (is_existing r f) || mem_ids order f

  unplaced_lem :
      (f g : Finding)
      → Effect f g
      → (is_none g.verification
          && (not (unpublishable r g) && (not (mem_ids (drop 2 order) g) && not (is_left g))))
        ≡ false
  unplaced_lem f g (unchanged h) = ground (arith, h)
  unplaced_lem f g (given w st) = refl

  settle_one-explained :
      (f : Finding)
      → is_ready r f ≡ true
      → is_placed f ≡ true
      → is_explained (settle_one r (mem_ids (drop 2 order) (judged f)) (judged f)) ≡ true
  settle_one-explained f ready placed = elim (Bool-cases (is_shown (take 2 order) f)) [
    | inl x ↦ rw x (
        settle_one-cases r (mem_ids (drop 2 order) (verify_finding r.verifier f).0)
          (verify_finding r.verifier f).0
          (unplaced_lem f (verify_finding r.verifier f).0 (verify_finding-Effect r.verifier f)))
    | inr x ↦ rw x (
        settle_one-cases r (mem_ids (drop 2 order) f) f
          (ground (arith, x, ready, placed, any-take (λ g. str_eq g.id f.id) 2 order)))
  ]

pub verify_where-judged :
    (r : Run) (order fs : List Finding)
    → verify_where r.verifier (is_shown (take 2 order)) fs ≡ map (judged r order) fs
unfolding verify_where
verify_where-judged r order [] = refl
verify_where-judged r order (f ∷ fs) =
    let rest = verify_where-judged r order fs in
    elim (Bool-cases (is_shown (take 2 order) f)) [
      | inl x ↦ rw x (ap (λ gs. (verify_finding r.verifier f).0 ∷ gs) rest)
      | inr x ↦ rw x (ap (λ gs. f ∷ gs) rest)
    ]

settle-explained_from :
    (r : Run) (order fs : List Finding)
    → All (λ f. is_ready r f ≡ true) fs
    → All (λ f. is_placed r order f ≡ true) fs
    → All
        (λ s. is_explained s ≡ true)
        (map (λ f. settle_one r (mem_ids (drop 2 order) f) f) (map (judged r order) fs))
settle-explained_from r order [] h k = tt
settle-explained_from r order (f ∷ fs) h k =
    (settle_one-explained r order f h.0 k.0, settle-explained_from r order fs h.1 k.1)

-- x
pub settle-explained :
    (r : Run) (values : List Finding)
    → 6 ≤ r.level
    → All (λ f. is_ready r f ≡ true) values
    → All (λ s. is_explained s ≡ true) (settle r values)
unfolding settle existing
settle-explained r values level h =
    let on : leb 6 r.level ≡ true = ground (arith, level) in
    let listed = select_if-members (is_existing r) values in
    let order = sort_by not_after (select_if (is_existing r) values) in
    let placed : All (λ f. is_placed r order f ≡ true) values =
      All-map (λ f. (not (is_existing r f) || mem_ids (select_if (is_existing r) values) f) ≡ true)
        (λ f. is_placed r order f ≡ true) values
        (λ f k. ground (
          arith,
          k,
          any-sort_by not_after (λ g. str_eq g.id f.id) (select_if (is_existing r) values),
        ))
        listed in
    rw (on, verify_where-judged r order values) (settle-explained_from r order values h placed)
