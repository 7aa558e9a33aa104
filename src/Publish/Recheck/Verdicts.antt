-- ===== src/Publish/Recheck/Verdicts.antt =====
-- What the verdicts of a recheck rest on (reviewer/publish/recheck.py).
use code_reviewer.Prelude.{
  ℕ, ◌≡◌, refl, inl, inr, Bool, true, false, Option, none, some, List, [], ◌∷◌, arith, leb,
  Bool-cases,
}
use code_reviewer.Prelude.Text.{Text, str_mem}
use code_reviewer.Findings.Models.{Finding}
use code_reviewer.Publish.Recheck.{
  Verdict, was_touched, or_unverifiable, is_judgeable, ThreadVerdict, Delta, Judging, triage,
  Judgement, says, fails, evaluate, fixed, partially_fixed, not_fixed, obsolete, unverifiable,
  triage_anchored, triage_lines, after_judgement, judged_by, rule, is_resolving, verdict_of,
}
use code_reviewer.Rereview.{Anchoring, unchanged, moved, reanchor}
use code_reviewer.Publish.Posting.{Discussion}

module _ (j : Judging) (delta : Delta) (f : Finding) where
  -- What the diff says of a claim, with its reason.
  data Triaged : Option Verdict → Type 0 where
    still_reported : str_mem f.fingerprint delta.reported ≡ true → Triaged (some not_fixed)
    no_longer :
        str_mem f.fingerprint delta.reported ≡ false
        → str_mem f.fingerprint delta.absent ≡ true
        → Triaged (some fixed)
    gone :
        str_mem f.fingerprint delta.reported ≡ false
        → j.tree.read_lines f.anchor.file ≡ none
        → j.is_file f.anchor.file ≡ false
        → Triaged (some obsolete)
    left_open :
        (v : Verdict)
        → is_resolving v ≡ false
        → str_mem f.fingerprint delta.reported ≡ false
        → Triaged (some v)
    unsettled : str_mem f.fingerprint delta.reported ≡ false → Triaged none

  triage_anchored-Triaged :
      (a : Anchoring)
      → str_mem f.fingerprint delta.reported ≡ false
      → Triaged (triage_anchored delta f a).0
  triage_anchored-Triaged (unchanged g) h =
      elim (Bool-cases (was_touched delta.touched f.anchor.file)) [
        | inl x ↦ rw x (unsettled h)
        | inr x ↦ rw x (left_open not_fixed refl h)
      ]
  triage_anchored-Triaged (moved g) h =
      elim (Bool-cases (was_touched delta.touched f.anchor.file)) [
        | inl x ↦ rw x (unsettled h)
        | inr x ↦ rw x (left_open not_fixed refl h)
      ]
  triage_anchored-Triaged _ h = unsettled h

  triage_lines-Triaged :
      (o : Option (List Text))
      → j.tree.read_lines f.anchor.file ≡ o
      → str_mem f.fingerprint delta.reported ≡ false
      → Triaged (triage_lines j delta f o).0
  unfolding triage_lines
  triage_lines-Triaged none e h = elim (Bool-cases (j.is_file f.anchor.file)) [
    | inl x ↦ rw x (left_open unverifiable refl h)
    | inr x ↦ rw x (gone h e x)
  ]
  triage_lines-Triaged (some lines) e h = triage_anchored-Triaged (reanchor j.tree f) h

  triage-Triaged : Triaged (triage j delta f).0
  unfolding triage
  triage-Triaged = elim (Bool-cases (str_mem f.fingerprint delta.reported)) [
    | inl x ↦ rw x (still_reported x)
    | inr x ↦ elim (Bool-cases (str_mem f.fingerprint delta.absent)) [
      | inl y ↦ rw (x, y) (no_longer x y)
      | inr y ↦ rw (x, y) (triage_lines-Triaged (j.tree.read_lines f.anchor.file) refl x)
    ]
  ]

  -- What a verdict rests on: a claim that is still reported is not fixed, by no judgement; else the
  -- thread is left open, or the re-review no longer reports the claim, or the file is gone, or the
  -- judge said so.
  pub data Grounds : Verdict → Bool → Type 0 where
    reported : str_mem f.fingerprint delta.reported ≡ true → Grounds not_fixed false
    open_thread :
        (v : Verdict) (b : Bool)
        → str_mem f.fingerprint delta.reported ≡ false
        → is_resolving v ≡ false
        → Grounds v b
    absent_now :
        (b : Bool)
        → str_mem f.fingerprint delta.reported ≡ false
        → str_mem f.fingerprint delta.absent ≡ true
        → Grounds fixed b
    file_gone :
        str_mem f.fingerprint delta.reported ≡ false
        → j.tree.read_lines f.anchor.file ≡ none
        → j.is_file f.anchor.file ≡ false
        → Grounds obsolete false
    by_judge :
        (v : Verdict) (ask : Finding → Judgement)
        → str_mem f.fingerprint delta.reported ≡ false
        → j.judge ≡ some ask
        → ask f ≡ says v
        → Grounds v true

  -- The judge is asked of a claim that the diff leaves open, or that is no longer reported.
  data Asked : Option Verdict → Type 0 where
    open_claim : Asked none
    absent_claim : str_mem f.fingerprint delta.absent ≡ true → Asked (some fixed)

  unasked-Grounds :
      (o : Option Verdict) (b : Bool)
      → Asked o
      → str_mem f.fingerprint delta.reported ≡ false
      → Grounds (or_unverifiable o) b
  unasked-Grounds o b open_claim h = open_thread unverifiable b h refl
  unasked-Grounds o b (absent_claim a) h = absent_now b h a

  answer-Grounds :
      (o : Option Verdict) (ask : Finding → Judgement) (a : Judgement) (n : ℕ)
      → Asked o
      → str_mem f.fingerprint delta.reported ≡ false
      → j.judge ≡ some ask
      → ask f ≡ a
      → Grounds (after_judgement o a n).0 (after_judgement o a n).1
  answer-Grounds o ask fails n c h e k = unasked-Grounds o false c h
  answer-Grounds o ask (says w) n open_claim h e k = by_judge w ask h e k
  answer-Grounds o ask (says w) n (absent_claim a) h e k = elim (Bool-cases (is_resolving w)) [
    | inl x ↦ rw x (absent_now true h a)
    | inr x ↦ rw x (open_thread w true h x)
  ]

  judged-Grounds :
      (o : Option Verdict) (ask : Option (Finding → Judgement)) (n : ℕ)
      → Asked o
      → str_mem f.fingerprint delta.reported ≡ false
      → j.judge ≡ ask
      → Grounds (judged_by j f o ask n).0 (judged_by j f o ask n).1
  judged-Grounds o none n c h e = unasked-Grounds o false c h
  judged-Grounds o (some ask) n c h e = elim (Bool-cases (leb j.limit n)) [
    | inl x ↦ rw x (unasked-Grounds o false c h)
    | inr x ↦ rw x (answer-Grounds o ask (ask f) n c h e refl)
  ]

  judgeable_lem : (v : Verdict) → is_resolving v ≡ false → is_judgeable (some v) ≡ false
  judgeable_lem fixed h = absurd (ground (arith, h))
  judgeable_lem partially_fixed h = refl
  judgeable_lem not_fixed h = refl
  judgeable_lem obsolete h = refl
  judgeable_lem unverifiable h = refl

  rule-Grounds :
      (o : Option Verdict) (n : ℕ) → Triaged o → Grounds (rule j f o n).0 (rule j f o n).1
  rule-Grounds o n (still_reported h) = reported h
  rule-Grounds o n (no_longer h a) = judged-Grounds (some fixed) j.judge n (absent_claim a) h refl
  rule-Grounds o n (gone h l x) = file_gone h l x
  rule-Grounds o n (left_open v r h) = rw (judgeable_lem v r) (open_thread v false h r)
  rule-Grounds o n (unsettled h) = judged-Grounds none j.judge n open_claim h refl

-- The verdict of each thread, in the order of the threads, with what it rests on.
pub data Judged (j : Judging) (delta : Delta)
    : List (Finding × Discussion) → List ThreadVerdict → Type 0 where
  no_thread : Judged j delta [] []
  one_thread :
      (f : Finding) (d : Discussion) (v : ThreadVerdict) (threads : List (Finding × Discussion))
      (vs : List ThreadVerdict)
      → v.fingerprint ≡ f.fingerprint
      → v.discussion_id ≡ d.id
      → Grounds j delta f v.verdict v.judged
      → Judged j delta threads vs
      → Judged j delta ((f, d) ∷ threads) (v ∷ vs)

-- The verdicts stand in the order of the threads, each with its ground: a claim that is still
-- reported is not fixed, without a judgement; every other verdict leaves the thread open, or is
-- that of a claim that the re-review no longer reports, of a file that is gone, or what the judge
-- said.
pub evaluate-Judged :
    (j : Judging) (delta : Delta) (n : ℕ) (threads : List (Finding × Discussion))
    → Judged j delta threads (evaluate j delta n threads)
unfolding evaluate
evaluate-Judged j delta n [] = no_thread
evaluate-Judged j delta n ((f, d) ∷ threads) =
    let o = (triage j delta f).0 in
    let ruled = rule j f o n in
    one_thread f d (verdict_of f d (triage j delta f).1 ruled) threads
      (evaluate j delta ruled.2 threads) refl refl
      (rule-Grounds j delta f o n (triage-Triaged j delta f))
      (evaluate-Judged j delta ruled.2 threads)
