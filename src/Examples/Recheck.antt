-- ===== src/Examples/Recheck.antt =====
-- Examples for rechecks (reviewer/publish/recheck.py).
use code_reviewer.Prelude.{
  ℕ, String, ◌≡◌, refl, true, false, none, some, List, [], ◌∷◌, map, if◌then◌else◌, any,
}
use code_reviewer.Prelude.Text.{codes, str_eq}
use code_reviewer.Findings.Models.{Finding, published}
use code_reviewer.Findings.Validation.{Worktree}
use code_reviewer.Publish.Posting.{Discussion, Note}
use code_reviewer.Publish.Recheck.{
  add_outcome, Threads, ThreadVerdict, Reply, Judging, Delta, fixed, not_fixed, says, evaluate,
  triage, publish, recheck, answered, collect, answer_all, publish_one, triage_lines,
}
use code_reviewer.Publish.Recheck.Verdicts.{Judged, evaluate-Judged}
use code_reviewer.Publish.Recheck.Replies.{rechecked, publish-rechecked}
use code_reviewer.Publish.Recheck.Laws.{recheck-keeps_reported, answers, collect-answered}
use code_reviewer.Examples.Sample.{claim_at}
use code_reviewer.Rereview.{find_window, reanchor}
use code_reviewer.Store.Rows.{update_first}

program : Unit {0}
unfolding evaluate triage publish recheck answer_all reanchor find_window update_first add_outcome
    triage_lines publish_one
program = tt

abbrev tree : Worktree
tree = record {
  read_lines = λ path. if str_eq path "a.py" then some (codes "x = 1" ∷ []) else none;
  sha256_of = λ lines. "";
  resolves = λ path symbol. true;
  git = none;
}

-- The judge takes every claim for fixed.
abbrev judging : Judging
judging = record { tree = tree; is_file = λ path. true; judge = some (λ f. says fixed); limit = 1 }

abbrev note : Note
note = record { body = codes "A claim"; author_id = 7 }

abbrev thread : ℕ → Discussion
thread id = record { id = id; resolved = false; file = some "a.py"; notes = note ∷ [] }

abbrev claim : String → Finding
claim fp = record (claim_at "correctness" fp 1) { status = published }

-- The run still reports "f1"; of "f2" it says nothing.
abbrev threads : List (Finding × Discussion)
threads = (claim "f1", thread 1) ∷ (claim "f2", thread 2) ∷ []

abbrev delta : Delta
delta = record { touched = some ("a.py" ∷ []); absent = "f2" ∷ []; reported = "f1" ∷ [] }

verdicts_found : map (λ v. v.verdict) (evaluate judging delta 0 threads) ≡ not_fixed ∷ fixed ∷ []
unfolding program
verdicts_found = refl

evaluate-Judged_example : Judged judging delta threads (evaluate judging delta 0 threads)
evaluate-Judged_example = evaluate-Judged judging delta 0 threads

abbrev reply : Reply
reply = record {
  client = record { bot = 7; owner_user_id = none };
  project_id = 1;
  iid = 2;
  head_sha = "h2";
  text = λ v. codes "Recheck ";
  reason = λ v. "Recheck";
}

abbrev written : Threads
written = record {
  discussions = thread 1 ∷ thread 2 ∷ [];
  drafts = [];
  comments = [];
  outcomes = [];
}

abbrev ruled : List ThreadVerdict
ruled = evaluate judging delta 0 threads

publish-rechecked_example :
    (publish false reply ruled written).discussions
    ≡ map (rechecked reply ruled) written.discussions
publish-rechecked_example = publish-rechecked reply ruled written

abbrev after : Threads
after = publish false reply ruled written

one_closed : map (λ d. d.resolved) after.discussions ≡ false ∷ true ∷ []
unfolding program
one_closed = refl

rechecked_so :
    recheck false reply judging true none (claim "f1" ∷ []) false threads written
    ≡ answered ruled after
unfolding program
rechecked_so = refl

recheck-keeps_reported_example :
    (after.discussions ≡ map (rechecked reply ruled) written.discussions)
    × ((rechecked reply ruled (thread 1)).resolved ≡ (thread 1).resolved)
recheck-keeps_reported_example =
    recheck-keeps_reported reply judging true none (claim "f1" ∷ []) false threads written after
      ruled (thread 1) rechecked_so refl

ruled-answers : any (answers "f1" (thread 1)) ruled ≡ true
unfolding program
ruled-answers = refl

collect-answered_example :
    collect [] (λ fp. none) "h2" [] ((codes "f1", rechecked reply ruled (thread 1)) ∷ [])
    ≡ collect [] (λ fp. none) "h2" [] []
collect-answered_example =
    collect-answered reply "f1" (thread 1) ruled [] (λ fp. none) [] [] ruled-answers
