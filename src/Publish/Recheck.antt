-- ===== src/Publish/Recheck.antt =====
-- Published comments judged against a newer head (reviewer/publish/recheck.py, and `recheck` of
-- reviewer/orchestrator/pipeline.py). The worktree, the judge and the texts of the replies are
-- parameters.
pub mod Verdicts
pub mod Limit
pub mod Replies
pub mod Laws
use code_reviewer.Prelude.{
  ℕ, ◌+◌, String, Bool, true, false, not, ◌&&◌, ◌||◌, Option, none, some, List, [], ◌∷◌, ◌++◌, map,
  leb, ◌==◌, if◌then◌else◌, any, select_if,
}
use code_reviewer.Prelude.Text.{Text, codes, text_eq, str_eq, str_mem}
use code_reviewer.Findings.Models.{is_closed, Finding}
use code_reviewer.Findings.Validation.{Worktree}
use code_reviewer.Findings.Pages.{occurs}
use code_reviewer.Rereview.{Anchoring, unchanged, moved, reanchor}
use code_reviewer.Publish.Markers.{closing}
use code_reviewer.Publish.Posting.{stamp, Note, Client, Discussion}
use code_reviewer.Store.Rows.{update_first, FindingOutcome}

pub data Verdict : Type 0 where
  fixed partially_fixed not_fixed obsolete unverifiable : Verdict

-- `verdict in RECHECK_RESOLVING`.
abbrev pub is_resolving : Verdict → Bool
is_resolving fixed = true
is_resolving obsolete = true
is_resolving _ = false

-- `verdict is None or verdict == "fixed"`.
abbrev pub is_judgeable : Option Verdict → Bool
is_judgeable none = true
is_judgeable (some fixed) = true
is_judgeable _ = false

-- `verdict or "unverifiable"`.
abbrev pub or_unverifiable : Option Verdict → Verdict
or_unverifiable none = unverifiable
or_unverifiable (some v) = v

-- The paths that the new commits touched, if not any may be, and the fingerprints of the claims that
-- the review beside no longer reports, and that it reports.
pub record Delta : Type 0 where
  pub touched : Option (List String)
  pub absent : List String
  pub reported : List String

pub data Judgement : Type 0 where
  says : Verdict → Judgement
  fails : Judgement

-- The worktree of the new head, whether a path is a file of it, the judge, if there is a model, and
-- how many judgements are allowed.
pub record Judging : Type 0 where
  pub tree : Worktree
  pub is_file : String → Bool
  pub judge : Option (Finding → Judgement)
  pub limit : ℕ

abbrev was_touched : Option (List String) → String → Bool
was_touched none path = true
was_touched (some paths) path = str_mem path paths

-- What the diff says of a claim whose file can be read.
abbrev pub triage_anchored : Delta → Finding → Anchoring → Option Verdict × Option Finding
triage_anchored delta f (unchanged g) =
    if was_touched delta.touched f.anchor.file then (none, some g) else (some not_fixed, some g)
triage_anchored delta f (moved g) =
    if was_touched delta.touched f.anchor.file then (none, some g) else (some not_fixed, some g)
triage_anchored delta f _ = (none, some f)

unfoldable pub triage_lines :
    Judging → Delta → Finding → Option (List Text) → Option Verdict × Option Finding
unfolding reanchor
triage_lines j delta f none =
    (some (if j.is_file f.anchor.file then unverifiable else obsolete), none)
triage_lines j delta f (some lines) = triage_anchored delta f (reanchor j.tree f)

-- `triage`.
unfoldable pub triage : Judging → Delta → Finding → Option Verdict × Option Finding
unfolding triage_lines
triage j delta f =
    if str_mem f.fingerprint delta.reported
    then (some not_fixed, none)
    else if str_mem f.fingerprint delta.absent
    then (some fixed, none)
    else triage_lines j delta f (j.tree.read_lines f.anchor.file)

pub record ThreadVerdict : Type 0 where
  pub fingerprint : String
  pub finding_id : String
  pub discussion_id : ℕ
  pub file : String
  pub line : ℕ
  pub verdict : Verdict
  pub judged : Bool

-- The verdict of one thread, whether a judgement made it, and how many were asked for by now.
abbrev pub after_judgement : Option Verdict → Judgement → ℕ → Verdict × Bool × ℕ
after_judgement none (says w) judged = (w, true, judged + 1)
after_judgement (some v) (says w) judged =
    if is_resolving w then (v, true, judged + 1) else (w, true, judged + 1)
after_judgement v fails judged = (or_unverifiable v, false, judged + 1)

abbrev pub judged_by :
    Judging → Finding → Option Verdict → Option (Finding → Judgement) → ℕ → Verdict × Bool × ℕ
judged_by j f v none judged = (or_unverifiable v, false, judged)
judged_by j f v (some ask) judged =
    if leb j.limit judged
    then (or_unverifiable v, false, judged)
    else after_judgement v (ask f) judged

abbrev pub rule : Judging → Finding → Option Verdict → ℕ → Verdict × Bool × ℕ
rule j f v judged =
    if is_judgeable v then judged_by j f v j.judge judged else (or_unverifiable v, false, judged)

abbrev given_finding : Option Finding → Finding → Finding
given_finding none f = f
given_finding (some g) f = g

abbrev pub verdict_of : Finding → Discussion → Option Finding → Verdict × Bool × ℕ → ThreadVerdict
verdict_of f d moved_to (v, judged, n) =
    let anchored = given_finding moved_to f in
    record {
      fingerprint = f.fingerprint;
      finding_id = f.id;
      discussion_id = d.id;
      file = anchored.anchor.file;
      line = anchored.anchor.line_start;
      verdict = v;
      judged = judged;
    }

-- `evaluate`, with the judgements asked for so far.
unfoldable pub evaluate : Judging → Delta → ℕ → List (Finding × Discussion) → List ThreadVerdict
unfolding triage
evaluate j delta judged [] = []
evaluate j delta judged ((f, d) ∷ threads) =
    let (v, moved_to) = triage j delta f in
    let ruled = rule j f v judged in
    let rest = evaluate j delta ruled.2 threads in verdict_of f d moved_to ruled ∷ rest

-- `recheck_marker`.
abbrev pub recheck_marker : Text → String → Text
recheck_marker fingerprint head_sha =
    codes "<!-- ai-review:recheck=" ++ (fingerprint ++ (codes "@" ++ (codes head_sha ++ closing)))

-- `any(marker in note.body for note in discussion.notes)`.
abbrev pub is_answered : Text → Discussion → Bool
unfolding occurs
is_answered pattern d = any (λ n. occurs pattern n.body) d.notes

-- `known.get(fingerprint)`, where a later finding replaces an earlier one, or else the store's.
unfoldable pub last_known : Text → List Finding → Option Finding
last_known fp [] = none
last_known fp (f ∷ fs) = elim (last_known fp fs) [
  | some g ↦ some g
  | none ↦ if text_eq (codes f.fingerprint) fp then some f else none
]

abbrev pub or_stored : (Text → Option Finding) → Text → Option Finding → Option Finding
or_stored stored fp none = stored fp
or_stored stored fp (some f) = some f

abbrev pub thread_of : Discussion → Option Finding → List (Finding × Discussion)
thread_of d none = []
thread_of d (some f) = (f, d) ∷ []

-- `collect`, on the items of the dict that `existing` returns; `drafts` are the bodies of the pending
-- draft notes.
unfoldable pub collect :
    List Finding
    → (Text → Option Finding)
    → String
    → List Text
    → List (Text × Discussion)
    → List (Finding × Discussion)
unfolding is_answered last_known
collect previous stored head drafts [] = []
collect previous stored head drafts ((fp, d) ∷ items) =
    let rest = collect previous stored head drafts items in
    let pattern = recheck_marker fp head in
    if is_answered pattern d || any (occurs pattern) drafts
    then rest
    else thread_of d (or_stored stored fp (last_known fp previous)) ++ rest

pub record PublishedComment : Type 0 where
  pub finding_id : String
  pub resolved : Bool

-- What a recheck writes to: the discussions and draft notes of the forge (with the thread that a
-- draft answers and the resolution that it would apply), the comment rows and the outcomes.
pub record Threads : Type 0 where
  pub discussions : List Discussion
  pub drafts : List (Text × ℕ × Bool)
  pub comments : List PublishedComment
  pub outcomes : List FindingOutcome

abbrev pub add_note : ℕ → Note → Discussion → Discussion
add_note id n d = if d.id == id then record d { notes = d.notes ++ (n ∷ []) } else d

abbrev pub resolve : ℕ → Discussion → Discussion
resolve id d = if d.id == id then record d { resolved = true } else d

-- `Store.outcome`.
abbrev same_outcome : ℕ → ℕ → String → String → FindingOutcome → Bool
same_outcome project iid fingerprint outcome o =
    (o.project_id == project && o.mr_iid == iid)
    && (str_eq o.fingerprint fingerprint && str_eq o.outcome outcome)

unfoldable pub add_outcome :
    ℕ → ℕ → String → String → String → String → List FindingOutcome → List FindingOutcome
add_outcome project iid fingerprint outcome reason user os =
    if any (same_outcome project iid fingerprint outcome) os
    then os
    else os
      ++ (record {
        project_id = project;
        mr_iid = iid;
        fingerprint = fingerprint;
        outcome = outcome;
        reason = reason;
        labelled_by = user;
      }
          ∷ [])

-- Whose merge request it is, the client, the head, the text of a reply before its marker and the
-- recorded reason, cut to its length.
pub record Reply : Type 0 where
  pub client : Client
  pub project_id : ℕ
  pub iid : ℕ
  pub head_sha : String
  pub text : ThreadVerdict → Text
  pub reason : ThreadVerdict → String

-- `render_recheck`.
abbrev pub render_recheck : Reply → ThreadVerdict → Text
render_recheck r v = r.text v ++ recheck_marker (codes v.fingerprint) r.head_sha

abbrev pub note_of : Reply → ThreadVerdict → Note
note_of r v = record {
  body = stamp r.client.owner_user_id (render_recheck r v);
  author_id = r.client.bot;
}

-- The reply in one thread, and its resolution (`Store.resolve_comment`, `Store.outcome`).
abbrev pub answer_thread : Reply → ThreadVerdict → Threads → Threads
answer_thread r v t = record t {
  discussions = map (add_note v.discussion_id (note_of r v)) t.discussions;
}

unfoldable pub close_thread : Reply → ThreadVerdict → Threads → Threads
unfolding update_first add_outcome
close_thread r v t = record t {
  discussions = map (resolve v.discussion_id) t.discussions;
  comments =
      update_first (λ c. str_eq c.finding_id v.finding_id) (λ c. record c { resolved = true })
        t.comments;
  outcomes =
      add_outcome r.project_id r.iid v.fingerprint "actioned" (r.reason v) "system" t.outcomes;
}

unfoldable pub publish_one : Bool → Reply → ThreadVerdict → Threads → Threads
unfolding close_thread
publish_one true r v t = record t {
  drafts = t.drafts ++ (((note_of r v).body, v.discussion_id, is_resolving v.verdict) ∷ []);
}
publish_one false r v t =
    let answered = answer_thread r v t in
    if is_resolving v.verdict then close_thread r v answered else answered

-- `publish`.
unfoldable pub publish : Bool → Reply → List ThreadVerdict → Threads → Threads
unfolding publish_one
publish draft r [] t = t
publish draft r (v ∷ vs) t = publish draft r vs (publish_one draft r v t)

-- What the report of the run says of a claim: `live`, and the claims of the threads that a complete
-- review no longer makes.
abbrev pub live : List Finding → List String
live findings = map (λ f. f.fingerprint) (select_if (λ f. not (is_closed f.status)) findings)

abbrev pub absent :
    Bool → List String → Option (List String) → List (Finding × Discussion) → List String
absent complete alive only threads =
    map (λ t. t.0.fingerprint)
      (select_if
        (λ t. complete && (not (str_mem t.0.fingerprint alive) && was_touched only t.0.anchor.file))
        threads)

pub data Rechecked : Type 0 where
  nothing : Rechecked
  stale : Rechecked
  answered : List ThreadVerdict → Threads → Rechecked

unfoldable pub answer_all :
    Bool → Reply → Judging → Delta → Bool → List (Finding × Discussion) → Threads → Rechecked
unfolding evaluate publish
answer_all draft r j delta head_moved [] t = nothing
answer_all draft r j delta head_moved (x ∷ threads) t =
    let verdicts = evaluate j delta 0 (x ∷ threads) in
    if not draft && head_moved then stale else answered verdicts (publish draft r verdicts t)

-- `Pipeline.recheck` from the collected threads on, where rechecks are on and writes are allowed;
-- `head_moved` is the answer of the forge before the replies.
unfoldable pub recheck :
    Bool
    → Reply
    → Judging
    → Bool
    → Option (List String)
    → List Finding
    → Bool
    → List (Finding × Discussion)
    → Threads
    → Rechecked
unfolding answer_all
recheck draft r j complete only findings head_moved threads t =
    let alive = live findings in
    answer_all draft r j
      (record { touched = only; absent = absent complete alive only threads; reported = alive })
      head_moved threads t
