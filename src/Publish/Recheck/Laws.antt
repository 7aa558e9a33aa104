-- ===== src/Publish/Recheck/Laws.antt =====
-- A whole recheck, and the next one (reviewer/publish/recheck.py, and `recheck` of
-- reviewer/orchestrator/pipeline.py).
use code_reviewer.Prelude.{
  ℕ, String, ◌≡◌, refl, sym, ap, ◌∙◌, inl, inr, Bool, true, false, not, ◌&&◌, ◌||◌, Option, none,
  some, List, [], ◌∷◌, ◌++◌, map, arith, ◌==◌, Bool-cases, any, all, select_if, any-append, &&_true,
}
use code_reviewer.Prelude.Text.{Text, codes, str_eq, str_mem, eq_of_str_eq}
use code_reviewer.Findings.Models.{Finding}
use code_reviewer.Findings.Pages.{occurs, starts_with}
use code_reviewer.Publish.Posting.{Discussion, stamp}
use code_reviewer.Publish.Recheck.{
  note_of, answer_all, absent, live, ThreadVerdict, Threads, Delta, Reply, Judging, Verdict,
  publish, collect, is_answered, recheck_marker, recheck, Rechecked, answered, nothing, stale,
  is_resolving, evaluate,
}
use code_reviewer.Publish.Recheck.Verdicts.{
  Judged, no_thread, one_thread, Grounds, reported, open_thread, absent_now, file_gone, by_judge,
  evaluate-Judged,
}
use code_reviewer.Publish.Recheck.Replies.{rechecked, publish-rechecked, is_for}
use code_reviewer.Publish.Markers.{closing}
use mathlib.Core.Bool.{false≢true}
use mathlib.Core.List.{append_assoc, append-nil}

-- The threads of a discussion are of claims that are still reported.
abbrev pub still_reported : List String → ℕ → Finding × Discussion → Bool
still_reported alive id t = not (t.1.id == id) || str_mem t.0.fingerprint alive

reported-open :
    (j : Judging) (delta : Delta) (f : Finding) (v : Verdict) (b : Bool)
    → Grounds j delta f v b
    → str_mem f.fingerprint delta.reported ≡ true
    → is_resolving v ≡ false
reported-open j delta f v b (reported h) k = refl
reported-open j delta f v b (open_thread w c h r) k = r
reported-open j delta f v b (absent_now c h a) k = absurd (false≢true (sym h ∙ k))
reported-open j delta f v b (file_gone h l x) k = absurd (false≢true (sym h ∙ k))
reported-open j delta f v b (by_judge w ask h e l) k = absurd (false≢true (sym h ∙ k))

Judged-open :
    (j : Judging) (delta : Delta) (d : Discussion) (threads : List (Finding × Discussion))
    (vs : List ThreadVerdict)
    → Judged j delta threads vs
    → all (still_reported delta.reported d.id) threads ≡ true
    → any (λ v. is_for d v && is_resolving v.verdict) vs ≡ false
Judged-open j delta d threads vs no_thread h = refl
Judged-open j delta d threads vs (one_thread f e v more ws fp id g rest) h =
    let both =
      &&_true (still_reported delta.reported d.id (f, e))
        (all (still_reported delta.reported d.id) more) h in
    let later = Judged-open j delta d more ws rest both.1 in
    elim (Bool-cases (d.id == v.discussion_id)) [
      | inl x ↦
          let here : (e.id == d.id) ≡ true = ground (arith, x, id) in
          let live_one : str_mem f.fingerprint delta.reported ≡ true =
            ground (arith, both.0, here) in
          rw (x, reported-open j delta f v.verdict v.judged g live_one) later
      | inr x ↦ rw x later
    ]

verdicts_of : Rechecked → List ThreadVerdict → List ThreadVerdict
verdicts_of (answered vs t) ws = vs
verdicts_of nothing ws = ws
verdicts_of stale ws = ws

threads_of : Rechecked → Threads → Threads
threads_of (answered vs t) u = t
threads_of nothing u = u
threads_of stale u = u

answer_all-answered :
    (r : Reply) (j : Judging) (delta : Delta) (head_moved : Bool)
    (threads : List (Finding × Discussion)) (t t' : Threads) (vs : List ThreadVerdict)
    → answer_all false r j delta head_moved threads t ≡ answered vs t'
    → (vs ≡ evaluate j delta 0 threads) × (t' ≡ publish false r vs t)
unfolding answer_all verdicts_of threads_of
answer_all-answered r j delta head_moved [] t t' vs e = absurd (ground (arith, e))
answer_all-answered r j delta true (x ∷ threads) t t' vs e = absurd (ground (arith, e))
answer_all-answered r j delta false (x ∷ threads) t t' vs e =
    let v : vs ≡ evaluate j delta 0 (x ∷ threads) = sym (ap (λ a. verdicts_of a []) e) in
    (v, sym (ap (λ a. threads_of a t) e) ∙ ap (λ ws. publish false r ws t) (sym v))

-- When an applied recheck answers, the discussions are those that its verdicts describe, and a
-- discussion stays as resolved as it was if all the threads of it are of claims that the run still
-- reports.
pub recheck-keeps_reported :
    (r : Reply) (j : Judging) (complete : Bool) (only : Option (List String))
    (findings : List Finding) (head_moved : Bool) (threads : List (Finding × Discussion))
    (t t' : Threads) (vs : List ThreadVerdict) (d : Discussion)
    → recheck false r j complete only findings head_moved threads t ≡ answered vs t'
    → all (still_reported (live findings) d.id) threads ≡ true
    → (t'.discussions ≡ map (rechecked r vs) t.discussions)
      × ((rechecked r vs d).resolved ≡ d.resolved)
unfolding recheck
recheck-keeps_reported r j complete only findings head_moved threads t t' vs d e h =
    let alive = live findings in
    let delta : Delta = record {
      touched = only;
      absent = absent complete alive only threads;
      reported = alive;
    } in
    let (v, p) = answer_all-answered r j delta head_moved threads t t' vs e in
    let shut : any (λ w. is_for d w && is_resolving w.verdict) vs ≡ false = rw v (
      Judged-open j delta d threads (evaluate j delta 0 threads) (evaluate-Judged j delta 0 threads)
        h) in
    (ap (λ x. x.discussions) p ∙ publish-rechecked r vs t, ground (arith, shut))

starts_with-append : (s t : Text) → starts_with s (s ++ t) ≡ true
unfolding starts_with
starts_with-append [] t = refl
starts_with-append (c ∷ s) t = ground (arith, starts_with-append s t)

occurs-starts : (p s : Text) → starts_with p s ≡ true → occurs p s ≡ true
unfolding occurs
occurs-starts p [] h = h
occurs-starts p (c ∷ s) h = ground (arith, h)

occurs-append : (p s t : Text) → occurs p (s ++ (p ++ t)) ≡ true
unfolding occurs
occurs-append p [] t = occurs-starts p (p ++ t) (starts_with-append p t)
occurs-append p (c ∷ s) t = ground (arith, occurs-append p s t)

pub stamp-marked : (owner : Option Text) (s p : Text) → occurs p (stamp owner (s ++ p)) ≡ true
stamp-marked none s p = ap (λ u. occurs p (s ++ u)) (sym (append-nil p)) ∙ occurs-append p s []
stamp-marked (some owner) s p =
    let tail = codes "\n\n<!-- ai-review:owner=" ++ (owner ++ closing) in
    ap (occurs p) (append_assoc s p tail) ∙ occurs-append p s tail

reply-marked :
    (r : Reply) (v : ThreadVerdict)
    → occurs (recheck_marker (codes v.fingerprint) r.head_sha) (note_of r v).body ≡ true
reply-marked r v =
    stamp-marked r.client.owner_user_id (r.text v) (recheck_marker (codes v.fingerprint) r.head_sha)

-- A verdict on a claim, in a discussion.
abbrev pub answers : String → Discussion → ThreadVerdict → Bool
answers fp d v = is_for d v && str_eq v.fingerprint fp

replies-marked :
    (r : Reply) (fp : String) (d : Discussion) (vs : List ThreadVerdict)
    → any (answers fp d) vs ≡ true
    → any
        (λ n. occurs (recheck_marker (codes fp) r.head_sha) n.body)
        (map (note_of r) (select_if (is_for d) vs))
      ≡ true
replies-marked r fp d [] h = absurd (ground (arith, h))
replies-marked r fp d (v ∷ vs) h = elim (Bool-cases (is_for d v)) [
  | inr x ↦ rw x (replies-marked r fp d vs (ground (arith, h, x)))
  | inl x ↦ elim (Bool-cases (str_eq v.fingerprint fp)) [
    | inl y ↦
        let marked : occurs (recheck_marker (codes fp) r.head_sha) (note_of r v).body ≡ true =
          ap (λ k. occurs (recheck_marker (codes k) r.head_sha) (note_of r v).body)
            (sym (eq_of_str_eq v.fingerprint fp y))
          ∙ reply-marked r v in
        rw (x, marked) refl
    | inr y ↦
        let later = replies-marked r fp d vs (ground (arith, h, x, y)) in
        rw x (ground (arith, later))
  ]
]

-- A discussion that a reply answered for a claim and a head is not collected again for that claim
-- at that head.
pub collect-answered :
    (r : Reply) (fp : String) (d : Discussion) (vs : List ThreadVerdict) (previous : List Finding)
    (stored : Text → Option Finding) (drafts : List Text) (items : List (Text × Discussion))
    → any (answers fp d) vs ≡ true
    → collect previous stored r.head_sha drafts ((codes fp, rechecked r vs d) ∷ items)
      ≡ collect previous stored r.head_sha drafts items
unfolding collect is_answered
collect-answered r fp d vs previous stored drafts items h =
    let pattern = recheck_marker (codes fp) r.head_sha in
    let there = replies-marked r fp d vs h in
    let all_notes =
      any-append (λ n. occurs pattern n.body) d.notes (map (note_of r) (select_if (is_for d) vs)) in
    let found : any (λ n. occurs pattern n.body)
          (d.notes ++ map (note_of r) (select_if (is_for d) vs))
        ≡ true =
      ground (arith, there, all_notes) in
    rw found refl
