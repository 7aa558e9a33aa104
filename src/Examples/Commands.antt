-- ===== src/Examples/Commands.antt =====
-- Examples for commands in comments (reviewer/publish/commands.py).
use code_reviewer.Prelude.{
  ℕ, String, ◌≡◌, refl, false, none, some, [], ◌∷◌, ◌++◌, ◌==◌, if◌then◌else◌,
}
use code_reviewer.Prelude.Text.{codes}
use code_reviewer.Findings.Pages.{starts_with}
use code_reviewer.Publish.Posting.{existing, entries_of}
use code_reviewer.Publish.Markers.{
  fingerprint_pattern, replicate, find_all, matches, owner_run, owner_of, owns_body, marker,
}
use code_reviewer.Publish.Commands.{
  parse, dismiss, Desk, Setting, CommandNote, command, put_key, to_dict, dismissed, drop_spaces,
  trim_end, forbidden, done, not_our_finding,
}
use code_reviewer.Publish.Commands.Laws.{command-dismiss_twice}
use code_reviewer.Publish.Recheck.{add_outcome}
use code_reviewer.Examples.Sample.{claim_at, ascii}

program : Unit {0}
unfolding fingerprint_pattern replicate find_all matches owner_run owner_of owns_body entries_of
    existing starts_with parse put_key to_dict dismissed drop_spaces trim_end add_outcome command
program = tt

abbrev key : String
key = "0123456789abcdef0123456789abcdef"

abbrev setting : Setting
setting = record {
  client = record { bot = 7; owner_user_id = none };
  unicode = ascii;
  project_id = 1;
  iid = 2;
  role = λ user. if user == 5 then 40 else 10;
  find = λ fp. some (claim_at "correctness" "f1" 4);
  string_of = λ s. "f1";
  explanation = λ f. f.claim;
}

abbrev order_of : ℕ → CommandNote
order_of user = record {
  user = user;
  name = "5";
  text = codes " /ai dismiss  not a bug ";
  discussion_id = some 1;
  note_id = 9;
  note_name = "9";
  ids = λ id. [];
}

abbrev desk : Desk
desk = record {
  discussions =
      record {
        id = 1;
        resolved = false;
        file = some "a.py";
        notes = record { body = codes "A claim " ++ marker (codes key); author_id = 7 } ∷ [];
      }
      ∷ [];
  jobs = [];
  outcomes = [];
}

parsed : parse ascii (codes " /ai dismiss  not a bug ") ≡ some (dismiss, some (codes "not a bug"))
unfolding program
parsed = refl

-- The first delivery resolves the thread, the second finds no open comment of ours.
first_answer : (command setting (order_of 5) desk).1 ≡ done
unfolding program
first_answer = refl

second_answer :
    (command setting (order_of 5) (command setting (order_of 5) desk).0).1 ≡ not_our_finding
unfolding program
second_answer = refl

role_answer : (command setting (order_of 6) desk).1 ≡ forbidden
unfolding program
role_answer = refl

command-dismiss_twice_example :
    (command setting (order_of 5) (command setting (order_of 5) desk).0).0
    ≡ (command setting (order_of 5) desk).0
command-dismiss_twice_example =
    command-dismiss_twice setting (order_of 5) (codes "not a bug") desk parsed
