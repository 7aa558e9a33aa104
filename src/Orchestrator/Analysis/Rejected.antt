-- ===== src/Orchestrator/Analysis/Rejected.antt =====
-- What becomes of findings that verification rejects (reviewer/orchestrator/pipeline.py and
-- reviewer/agents/verification.py).
use code_reviewer.Prelude.{
  String, ◌≡◌, refl, ap, inl, inr, Bool, true, false, not, ◌||◌, Option, none, some, List, [], ◌∷◌,
  ◌++◌, map, arith, leb, Bool-cases, select_if, All, take, drop, All-append,
}
use code_reviewer.Orchestrator.Analysis.{verify}
use code_reviewer.Findings.Models.{
  suppressed, is_closed, VerificationResult, Finding, rejected, confirmed, uncertain, Verdict,
}
use code_reviewer.Orchestrator.Verification.{
  status_of, scanned, one, is_left, verify_where, verify_finding, Verifier, Verdicted, ruled,
  raised, Failure, admitted,
}
use code_reviewer.Orchestrator.Analysis.{
  is_shown, is_introduced, mem_ids, is_discarded, settle_one, prepare, gather, established, confirm,
  analyse, Run, existing, settle,
}
use code_reviewer.Findings.Dedup.{same_fingerprint, absorb_all, related, deduplicate, combine}
use code_reviewer.Findings.Policy.{normalize}
use code_reviewer.Orchestrator.Analysis.Whole.{normalize-closed, absorb_all-All}
use code_reviewer.Orchestrator.Analysis.Laws.{normalize-verification}

abbrev pub is_rejected : Verdict → Bool
is_rejected rejected = true
is_rejected _ = false

abbrev pub was_rejected : Option VerificationResult → Bool
was_rejected none = false
was_rejected (some v) = is_rejected v.verdict

-- A finding that verification rejected is not open.
abbrev pub is_sound : Finding → Bool
is_sound f = not (was_rejected f.verification) || is_closed f.status

status_of_sound : (v : Verdict) → (not (is_rejected v) || is_closed (status_of v)) ≡ true
status_of_sound confirmed = refl
status_of_sound rejected = refl
status_of_sound uncertain = refl

one_sound : (f : Finding) (a : Verdicted) → is_sound (one f a).0 ≡ true
one_sound f (ruled v a b) = status_of_sound (admitted f v a b).verdict
one_sound f (raised e) = refl

scanned_sound :
    (v : Verifier) (f : Finding) (o : Option Failure) → is_sound (scanned v f o).0 ≡ true
scanned_sound v f none = one_sound f (v.verify f)
scanned_sound v f (some e) = refl

verify_finding_sound :
    (v : Verifier) (f : Finding) → is_sound f ≡ true → is_sound (verify_finding v f).0 ≡ true
unfolding verify_finding
verify_finding_sound v f h = elim (Bool-cases (is_left f)) [
  | inl x ↦ rw x h
  | inr x ↦ rw x (scanned_sound v f (v.scan f))
]

abbrev AllSound : List Finding → Type 0
AllSound fs = All (λ f. is_sound f ≡ true) fs

verify_where_sound :
    (v : Verifier) (p : Finding → Bool) (fs : List Finding)
    → AllSound fs
    → AllSound (verify_where v p fs)
unfolding verify_where
verify_where_sound v p [] h = tt
verify_where_sound v p (f ∷ fs) h =
    let rest = verify_where_sound v p fs h.1 in
    elim (Bool-cases (p f)) [
      | inl x ↦ rw x ((verify_finding_sound v f h.0, rest))
      | inr x ↦ rw x ((h.0, rest))
    ]

verify_sound :
    (r : Run) (p : Finding → Bool) (fs : List Finding) → AllSound fs → AllSound (verify r p fs)
verify_sound r p fs h = elim (Bool-cases (leb 6 r.level)) [
  | inl x ↦ rw x (verify_where_sound r.verifier p fs h)
  | inr x ↦ rw x h
]

select_if_sound : (p : Finding → Bool) (fs : List Finding) → AllSound fs → AllSound (select_if p fs)
select_if_sound p [] h = tt
select_if_sound p (f ∷ fs) h = elim (Bool-cases (p f)) [
  | inl x ↦ rw x ((h.0, select_if_sound p fs h.1))
  | inr x ↦ rw x (select_if_sound p fs h.1)
]

combine_sound : (x g : Finding) → is_sound x ≡ true → is_sound (combine x g) ≡ true
unfolding combine
combine_sound x g h = h

module _ (r : Run) (fresh : (f : Finding) → (r.validated f).verification ≡ none) where
  deduplicate_sound :
      (fs : List Finding) → AllSound fs → AllSound (deduplicate r.unicode r.merge_distance fs)
  unfolding deduplicate
  deduplicate_sound fs h =
      absorb_all-All (λ f. is_sound f ≡ true) (related r.unicode r.merge_distance) []
        (absorb_all same_fingerprint [] fs) combine_sound tt
        (absorb_all-All (λ f. is_sound f ≡ true) same_fingerprint [] fs combine_sound tt h)

  validated_sound : (fs : List Finding) → AllSound (map r.validated fs)
  validated_sound [] = tt
  validated_sound (f ∷ fs) = (rw (fresh f) refl, validated_sound fs)

  prepare_sound : (proposals : List Finding) → AllSound (prepare r proposals).0
  unfolding prepare
  prepare_sound proposals =
      let checked = map r.validated proposals in
      let open_ones = select_if (λ f. not (is_discarded f.status)) checked in
      verify_sound r (is_introduced r) (deduplicate r.unicode r.merge_distance open_ones) (
        deduplicate_sound open_ones
          (select_if_sound (λ f. not (is_discarded f.status)) checked (validated_sound proposals)))

  confirm_sound : (fs : List Finding) → AllSound (map confirm fs)
  confirm_sound [] = tt
  confirm_sound (f ∷ fs) = (refl, confirm_sound fs)

  established_sound : (diagnostics : List Finding) → AllSound (established r diagnostics).0
  unfolding established
  established_sound diagnostics =
      let open_ones = select_if (λ f. not (is_discarded f.status)) (map r.validated diagnostics) in
      deduplicate_sound (map confirm open_ones) (confirm_sound open_ones)

  files_sound :
      (files : List (List Finding)) → AllSound (gather (map (λ fs. (prepare r fs).0) files))
  files_sound [] = tt
  files_sound (fs ∷ files) =
      All-append (λ f. is_sound f ≡ true) (prepare r fs).0
        (gather (map (λ gs. (prepare r gs).0) files)) (prepare_sound fs) (files_sound files)

normalize_sound :
    (f : Finding) (touched categories : List String)
    → is_sound f ≡ true
    → is_sound (normalize f touched categories) ≡ true
normalize_sound f touched categories h = elim (Bool-cases (is_closed f.status)) [
  | inl x ↦ rw (normalize-closed f touched categories x) h
  | inr x ↦ ground (arith, h, x, ap was_rejected (normalize-verification f touched categories))
]

settle_one_sound :
    (r : Run) (b : Bool) (f : Finding) → is_sound f ≡ true → is_sound (settle_one r b f).0 ≡ true
settle_one_sound r true f h =
    normalize_sound (record f { status = suppressed }) r.touched r.categories (ground arith)
settle_one_sound r false f h = normalize_sound f r.touched r.categories h

settled_sound :
    (r : Run) (b : Finding → Bool) (fs : List Finding)
    → AllSound fs
    → All (λ s. is_sound s.0 ≡ true) (map (λ f. settle_one r (b f) f) fs)
settled_sound r b [] h = tt
settled_sound r b (f ∷ fs) h = (settle_one_sound r (b f) f h.0, settled_sound r b fs h.1)

-- Where validated findings have no verdict yet, every one of a run's fresh findings that
-- verification rejects, of its files, the build's diagnostics and its proposals, is discarded,
-- suppressed or resolved after settling.
pub analyse-closes_rejected :
    (r : Run) (files : List (List Finding)) (diagnostics proposals : List Finding)
    → ((f : Finding) → (r.validated f).verification ≡ none)
    → All (λ s. is_sound s.0 ≡ true) (analyse r files diagnostics proposals)
unfolding analyse settle
analyse-closes_rejected r files diagnostics proposals fresh =
    let early = gather (map (λ fs. (prepare r fs).0) files) in
    let late = (established r diagnostics).0 ++ (prepare r proposals).0 in
    let values = early ++ late in
    let order = existing r values in
    settled_sound r (mem_ids (drop 2 order)) (verify r (is_shown (take 2 order)) values) (
      verify_sound r (is_shown (take 2 order)) values (
        All-append (λ f. is_sound f ≡ true) early late (files_sound r fresh files)
          (All-append (λ f. is_sound f ≡ true) (established r diagnostics).0 (prepare r proposals).0
            (established_sound r fresh diagnostics) (prepare_sound r fresh proposals))))
