-- ===== src/Orchestrator/Analysis/Whole.antt =====
-- All the findings of a run (reviewer/orchestrator/pipeline.py).
use code_reviewer.Prelude.{
  ◌≤◌, String, ◌≡◌, refl, sym, ap, ◌∙◌, inl, inr, Bool, true, false, not, ◌&&◌, List, [], ◌∷◌, ◌++◌,
  map, arith, leb, Bool-cases, length, any, select_if, All, take, drop, All-append, All-map,
}
use code_reviewer.Prelude.Text.{str_eq, str_eq_refl}
use code_reviewer.Prelude.Sorting.{sort_by}
use code_reviewer.Findings.Models.{is_verified, is_local, Finding, is_closed, suppressed}
use code_reviewer.Findings.Policy.{normalize, is_hidden}
use code_reviewer.Findings.Dedup.{
  deduplicate, absorb, absorb_all, combine, related, same_fingerprint,
}
use code_reviewer.Orchestrator.Verification.{verify_finding}
use code_reviewer.Orchestrator.Analysis.{
  not_after, is_discarded, Run, existing, prepare, settle, is_none, mem_ids, is_shown, is_existing,
  established, analyse, gather, confirm, settle_one,
}
use code_reviewer.Orchestrator.Analysis.Effects.{
  Effect, unchanged, given, verify_finding-Effect, counted-sort_by, counted-drop, counted-and,
}
use code_reviewer.Orchestrator.Analysis.Laws.{
  is_ready, is_explained, prepare-ready, settle-explained, judged, verify_where-judged,
}

absorb-All {κ} :
    (P : Finding → Type κ) (same : Finding → Finding → Bool) (f : Finding) (xs : List Finding)
    → ((x g : Finding) → P x → P (combine x g))
    → P f
    → All P xs
    → All P (absorb same f xs)
unfolding absorb
absorb-All P same f [] step h k = (h, tt)
absorb-All P same f (x ∷ xs) step h k = elim (Bool-cases (same x f)) [
  | inl e ↦ rw e ((step x f k.0, k.1))
  | inr e ↦ rw e ((k.0, absorb-All P same f xs step h k.1))
]

pub absorb_all-All {κ} :
    (P : Finding → Type κ) (same : Finding → Finding → Bool) (kept fs : List Finding)
    → ((x g : Finding) → P x → P (combine x g))
    → All P kept
    → All P fs
    → All P (absorb_all same kept fs)
unfolding absorb_all
absorb_all-All P same kept [] step h k = h
absorb_all-All P same kept (f ∷ fs) step h k =
    absorb_all-All P same (absorb same f kept) fs step (absorb-All P same f kept step k.0 h) k.1

combine-verification :
    (x g : Finding) → is_none x.verification ≡ false → is_none (combine x g).verification ≡ false
unfolding combine
combine-verification x g h = h

confirm-verified : (fs : List Finding) → All (λ f. is_none f.verification ≡ false) (map confirm fs)
confirm-verified [] = tt
confirm-verified (f ∷ fs) = (refl, confirm-verified fs)

established-ready :
    (r : Run) (diagnostics : List Finding)
    → All (λ f. is_ready r f ≡ true) (established r diagnostics).0
unfolding established deduplicate
established-ready r diagnostics =
    let P : Finding → Type 0 = λ f. is_none f.verification ≡ false in
    let confirmed_ones =
      map confirm (select_if (λ f. not (is_discarded f.status)) (map r.validated diagnostics)) in
    let once = absorb_all same_fingerprint [] confirmed_ones in
    let first = absorb_all-All P same_fingerprint [] confirmed_ones combine-verification tt (
      confirm-verified
        (select_if (λ f. not (is_discarded f.status)) (map r.validated diagnostics))) in
    All-map P (λ f. is_ready r f ≡ true) (absorb_all (related r.unicode r.merge_distance) [] once)
      (λ f h. ground (arith, h))
      (absorb_all-All P (related r.unicode r.merge_distance) [] once combine-verification tt first)

files-ready :
    (r : Run) (files : List (List Finding))
    → 6 ≤ r.level
    → All (λ f. is_ready r f ≡ true) (gather (map (λ fs. (prepare r fs).0) files))
files-ready r [] level = tt
files-ready r (fs ∷ files) level =
    All-append (λ f. is_ready r f ≡ true) (prepare r fs).0
      (gather (map (λ gs. (prepare r gs).0) files)) (prepare-ready r fs level)
      (files-ready r files level)

-- From milestone 6 on, each of a run's fresh findings, of its files, the build's diagnostics and
-- its proposals, has a verdict after settling, or a reason why it has none.
pub analyse-explained :
    (r : Run) (files : List (List Finding)) (diagnostics proposals : List Finding)
    → 6 ≤ r.level
    → All (λ s. is_explained s ≡ true) (analyse r files diagnostics proposals)
unfolding analyse
analyse-explained r files diagnostics proposals level =
    let late = (established r diagnostics).0 ++ (prepare r proposals).0 in
    let early = gather (map (λ fs. (prepare r fs).0) files) in
    settle-explained r (early ++ late) level (
      All-append (λ f. is_ready r f ≡ true) early late (files-ready r files level)
        (All-append (λ f. is_ready r f ≡ true) (established r diagnostics).0 (prepare r proposals).0
          (established-ready r diagnostics) (prepare-ready r proposals level)))

-- A pre-existing finding that would be published.
abbrev pub is_open_existing : Run → Finding → Bool
is_open_existing r f = is_existing r f && not (is_closed f.status)

normalize-is_existing :
    (r : Run) (f : Finding) → is_existing r (normalize f r.touched r.categories) ≡ is_existing r f
unfolding normalize is_hidden
normalize-is_existing r f = elim (Bool-cases (is_closed f.status)) [
  | inl x ↦ rw x refl
  | inr x ↦ elim (Bool-cases (not (is_local f.evidence_scope) && not (is_verified f))) [
    | inl y ↦ rw (x, y) refl
    | inr y ↦ rw (x, y) refl
  ]
]

pub normalize-closed :
    (f : Finding) (touched categories : List String)
    → is_closed f.status ≡ true
    → normalize f touched categories ≡ f
unfolding normalize
normalize-closed f touched categories h = rw h refl

settle_one-open :
    (r : Run) (b : Bool) (f : Finding)
    → is_open_existing r (settle_one r b f).0 ≡ true
    → (is_existing r f && not b) ≡ true
settle_one-open r true f h =
    let shut = record f { status = suppressed } in
    absurd (
      ground (
        arith,
        sym (ap (is_open_existing r) (normalize-closed shut r.touched r.categories refl)) ∙ h,
      ))
settle_one-open r false f h = ground (arith, h, normalize-is_existing r f)

beyond_lem : (fs : List Finding) → All (λ f. not (mem_ids fs f) ≡ false) fs
beyond_lem [] = tt
beyond_lem (x ∷ xs) = (
  ground (arith, str_eq_refl x.id),
  All-map (λ f. not (mem_ids xs f) ≡ false) (λ f. not (mem_ids (x ∷ xs) f) ≡ false) xs
      (λ f h. ground (arith, h)) (beyond_lem xs),
)

Effect-kept :
    (r : Run) (f g : Finding) → Effect f g → (is_existing r g ≡ is_existing r f) × (g.id ≡ f.id)
unfolding is_hidden
Effect-kept r f g (unchanged h) = (refl, refl)
Effect-kept r f g (given w st) = (refl, refl)

judged-kept :
    (r : Run) (order : List Finding) (f : Finding)
    → (is_existing r (judged r order f) ≡ is_existing r f) × ((judged r order f).id ≡ f.id)
judged-kept r order f = elim (Bool-cases (is_shown (take 2 order) f)) [
  | inl x ↦
      rw x (Effect-kept r f (verify_finding r.verifier f).0 (verify_finding-Effect r.verifier f))
  | inr x ↦ rw x ((refl, refl))
]

settled-counted :
    (r : Run) (order fs : List Finding)
    → length (
        select_if
          (λ s. is_open_existing r s.0)
          (map (λ f. settle_one r (mem_ids (drop 2 order) f) f) (map (judged r order) fs)))
      ≤ length (select_if (λ f. is_existing r f && not (mem_ids (drop 2 order) f)) fs)
settled-counted r order [] = omega arith
settled-counted r order (f ∷ fs) =
    let g = judged r order f in
    let b = mem_ids (drop 2 order) g in
    let rest = settled-counted r order fs in
    let kept = judged-kept r order f in
    let same : mem_ids (drop 2 order) g ≡ mem_ids (drop 2 order) f =
      ap (λ i. any (λ x. str_eq x.id i) (drop 2 order)) kept.1 in
    elim (Bool-cases (is_open_existing r (settle_one r b g).0)) [
      | inl x ↦
          let placed : (is_existing r f && not (mem_ids (drop 2 order) f)) ≡ true =
            ground (arith, settle_one-open r b g x, kept.0, same) in
          rw (x, placed) (omega (arith, rest))
      | inr x ↦ rw x (elim (Bool-cases (is_existing r f && not (mem_ids (drop 2 order) f))) [
        | inl y ↦ rw y (omega (arith, rest))
        | inr y ↦ rw y rest
      ])
    ]

-- From milestone 6 on, at most two findings on code that the change did not introduce are left
-- open and publishable by settle, whatever the findings are.
pub settle-existing_limit :
    (r : Run) (values : List Finding)
    → 6 ≤ r.level
    → length (select_if (λ s. is_open_existing r s.0) (settle r values)) ≤ 2
unfolding settle existing
settle-existing_limit r values level =
    let on : leb 6 r.level ≡ true = ground (arith, level) in
    let order = sort_by not_after (select_if (is_existing r) values) in
    let q : Finding → Bool = λ f. not (mem_ids (drop 2 order) f) in
    let counted = settled-counted r order values in
    let split = ap length (counted-and (is_existing r) q values) in
    let sorted = counted-sort_by not_after q (select_if (is_existing r) values) in
    let few = counted-drop q 2 order (beyond_lem (drop 2 order)) in
    rw (on, verify_where-judged r order values) (omega (arith, counted, split, sorted, few))
