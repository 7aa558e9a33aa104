-- ===== src/Publish/Commands.antt =====
-- Commands in comments (`_command` of reviewer/publish/commands.py): the roles, the stored findings,
-- the text of an explanation and the tables of Unicode are parameters.
pub mod Laws
use code_reviewer.Prelude.{
  ℕ, String, Bool, false, ◌&&◌, ◌||◌, Option, none, some, List, [], ◌∷◌, ◌++◌, map, ltb, leb, ◌==◌,
  if◌then◌else◌, length, any, next_of, take, drop,
}
use code_reviewer.Prelude.Text.{Text, codes, text_eq, str_append}
use code_reviewer.Findings.Dedup.{Unicode}
use code_reviewer.Findings.Models.{Finding}
use code_reviewer.Findings.Pages.{starts_with}
use code_reviewer.Publish.Posting.{Client, Discussion, existing, stamp}
use code_reviewer.Publish.Recheck.{add_note, resolve, add_outcome}
use code_reviewer.Store.Rows.{FindingOutcome}

pub data Action : Type 0 where
  review recheck explain dismiss : Action

module _ (u : Unicode) where
  unfoldable pub drop_spaces : Text → Text
  drop_spaces [] = []
  drop_spaces (c ∷ s) = if u.is_space c then drop_spaces s else c ∷ s

  -- The text without the spaces at its end.
  unfoldable pub trim_end : Text → Text
  trim_end [] = []
  trim_end (c ∷ s) = ended (trim_end s)
    where
      ended : Text → Text
      ended [] = if u.is_space c then [] else c ∷ []
      ended (d ∷ t) = c ∷ (d ∷ t)

  -- `note.strip()`.
  abbrev pub strip : Text → Text
  strip s = drop_spaces (trim_end s)

  -- `(?:\s+(.{1,1000}))?` up to the end of a stripped text: the spaces are all taken, since fewer leave
  -- a longer rest.
  abbrev pub reason_of : Text → Option (Option Text)
  unfolding drop_spaces
  reason_of [] = some none
  reason_of (c ∷ s) =
      let rest = drop_spaces s in
      if u.is_space c && (leb 1 (length rest) && leb (length rest) 1000)
      then some (some rest)
      else none

  abbrev with_action : Action → Option (Option Text) → Option (Action × Option Text)
  with_action a none = none
  with_action a (some reason) = some (a, reason)

  abbrev pub action_of : Text → Option (Action × Option Text)
  unfolding reason_of
  action_of s =
      if starts_with (codes "review") s
      then with_action review (reason_of (drop 6 s))
      else if starts_with (codes "recheck") s
      then with_action recheck (reason_of (drop 7 s))
      else if starts_with (codes "explain") s
      then with_action explain (reason_of (drop 7 s))
      else if starts_with (codes "dismiss") s
      then with_action dismiss (reason_of (drop 7 s))
      else none

  -- `re.fullmatch` of the stripped note.
  unfoldable pub parse : Text → Option (Action × Option Text)
  unfolding trim_end drop_spaces action_of starts_with
  parse note =
      let s = strip note in if starts_with (codes "/ai ") s then action_of (drop 4 s) else none

-- `d[key] = value`, of a dict that keeps the place of its keys.
unfoldable pub put_key : Text → Discussion → List (Text × Discussion) → List (Text × Discussion)
put_key fp d [] = (fp, d) ∷ []
put_key fp d ((k, e) ∷ items) =
    let rest = put_key fp d items in if text_eq k fp then (k, d) ∷ items else (k, e) ∷ rest

unfoldable pub to_dict :
    List (Text × Discussion) → List (Text × Discussion) → List (Text × Discussion)
unfolding put_key
to_dict items [] = items
to_dict items ((fp, d) ∷ entries) = to_dict (put_key fp d items) entries

-- What a command writes to: the discussions, the jobs it asks for and the outcomes.
pub record Desk : Type 0 where
  pub discussions : List Discussion
  pub jobs : List String
  pub outcomes : List FindingOutcome

-- The merge request, with what the parameters answer; `string_of` is the same text as a string.
pub record Setting : Type 0 where
  pub client : Client
  pub unicode : Unicode
  pub project_id : ℕ
  pub iid : ℕ
  pub role : ℕ → ℕ
  pub find : Text → Option Finding
  pub string_of : Text → String
  pub explanation : Finding → Text

-- The note of a command: its author, its text, where it stands, and the ids of a discussion's notes.
pub record CommandNote : Type 0 where
  pub user : ℕ
  pub name : String
  pub text : Text
  pub discussion_id : Option ℕ
  pub note_id : ℕ
  pub note_name : String
  pub ids : ℕ → List ℕ

pub data Answer : Type 0 where
  forbidden ignored queued reason_required unknown_discussion not_our_finding unknown_finding done :
      Answer

abbrev opt_num_eq : ℕ → Option ℕ → Bool
opt_num_eq n none = false
opt_num_eq n (some m) = n == m

-- `d.id == discussion_id or any(n.id == note_id for n in d.notes)`.
abbrev pub is_target : CommandNote → Discussion → Bool
is_target o d = opt_num_eq d.id o.discussion_id || any (λ n. n == o.note_id) (o.ids d.id)

-- `next((key for key, d in fingerprints.items() if d.id == target.id), None)`.
abbrev pub key_for : ℕ → List (Text × Discussion) → Option (Text × Discussion)
key_for id items = next_of (λ e. e.1.id == id) items

abbrev pub or_empty : Option Text → Text
or_empty none = []
or_empty (some s) = s

module _ (p : Setting) (o : CommandNote) where
  abbrev pub explained : Finding → ℕ → Desk → Desk
  explained f id desk = record desk {
    discussions =
        map
          (add_note id (record {
            body = stamp p.client.owner_user_id (p.explanation f);
            author_id = p.client.bot;
          }))
          desk.discussions;
  }

  -- A dismissal: the thread is resolved and the outcome recorded once, the reason cut to its length.
  unfoldable pub dismissed : Text → ℕ → Text → Desk → Desk
  unfolding add_outcome
  dismissed fp id reason desk = record desk {
    discussions = map (resolve id) desk.discussions;
    outcomes =
        add_outcome p.project_id p.iid (p.string_of fp) "dismissed" (p.string_of (take 1000 reason))
          o.name desk.outcomes;
  }

  abbrev pub for_finding : Action → Option Text → Text → ℕ → Option Finding → Desk → Desk × Answer
  for_finding action reason fp id none desk = (desk, unknown_finding)
  for_finding explain reason fp id (some f) desk = (explained f id desk, done)
  for_finding _ reason fp id (some f) desk = (dismissed fp id (or_empty reason) desk, done)

  abbrev pub for_key : Action → Option Text → ℕ → Option (Text × Discussion) → Desk → Desk × Answer
  unfolding dismissed
  for_key action reason id none desk = (desk, not_our_finding)
  for_key action reason id (some (fp, d)) desk = for_finding action reason fp id (p.find fp) desk

  abbrev pub for_target : Action → Option Text → Option Discussion → Desk → Desk × Answer
  unfolding for_key existing to_dict
  for_target action reason none desk = (desk, unknown_discussion)
  for_target action reason (some d) desk =
      for_key action reason d.id (key_for d.id (to_dict [] (existing p.client desk.discussions)))
        desk

  abbrev pub obey : Option (Action × Option Text) → Desk → Desk × Answer
  unfolding for_target
  obey none desk = (desk, ignored)
  obey (some (recheck, reason)) desk =
      (record desk { jobs = desk.jobs ++ (str_append "recheck:" o.note_name ∷ []) }, queued)
  obey (some (review, reason)) desk =
      (record desk { jobs = desk.jobs ++ (str_append "command:" o.note_name ∷ []) }, queued)
  obey (some (dismiss, none)) desk = (desk, reason_required)
  obey (some (action, reason)) desk =
      for_target action reason (next_of (is_target o) desk.discussions) desk

  -- `_command`.
  unfoldable pub command : Desk → Desk × Answer
  unfolding parse obey
  command desk =
      if ltb (p.role o.user) 30 then (desk, forbidden) else obey (parse p.unicode o.text) desk
