-- ===== src/Rereview.antt =====
-- What a later push does to the findings of an earlier one (reviewer/publish/rereview.py): each is
-- looked for in the new tree, and a fresh finding may take over its identity. Published anchors are
-- ranges, as validation ensures, so a length is never negative.
pub mod Laws
pub mod Adoption
use code_reviewer.Prelude.{
  ℕ, zero, suc, ◌+◌, ◌-◌, max, String, Bool, true, false, not, ◌&&◌, ◌||◌, Option, none, some, List,
  [], ◌∷◌, map, ltb, leb, ◌==◌, if◌then◌else◌, length, any, next_of, take, drop,
}
use code_reviewer.Prelude.Text.{Text, str_eq, str_mem, opt_str_eq}
use code_reviewer.Context.Diff.{DiffFile, Line, Hunk, is_context}
use code_reviewer.Findings.Validation.{Worktree}
use code_reviewer.Findings.Models.{Finding, Anchor}
use code_reviewer.Store.Rows.{update_first}

-- The results of `reanchor`; "moved" and "unchanged" come with the finding.
pub data Anchoring : Type 0 where
  fixed invalidated : Anchoring
  unchanged moved : Finding → Anchoring

abbrev pub window_length : Anchor → ℕ
window_length a = a.line_end + 1 - a.line_start

-- The loop over the offsets, from one on: the first window with the anchor's hash. `count` offsets
-- are left, and the lines stand from the offset on.
unfoldable pub find_window : Worktree → String → ℕ → ℕ → ℕ → List Text → Option ℕ
find_window w hash len zero offset lines = none
find_window w hash len (suc count) offset lines =
    let rest = find_window w hash len count (suc offset) (drop 1 lines) in
    if str_eq (w.sha256_of (take len lines)) hash then some offset else rest

abbrev pub anchored_at : Finding → ℕ → Finding
anchored_at f offset = record f {
  anchor = record f.anchor { line_start = offset + 1; line_end = offset + window_length f.anchor };
}

abbrev pub anchoring : Finding → Option ℕ → Anchoring
anchoring f none = invalidated
anchoring f (some offset) =
    if offset + 1 == f.anchor.line_start
    then unchanged (anchored_at f offset)
    else moved (anchored_at f offset)

abbrev pub reanchor_in : Worktree → Finding → Option (List Text) → Anchoring
unfolding find_window
reanchor_in w f none = fixed
reanchor_in w f (some lines) =
    let len = window_length f.anchor in
    anchoring f (find_window w f.anchor.context_hash len (length lines + 1 - len) 0 lines)

-- `reanchor`.
unfoldable pub reanchor : Worktree → Finding → Anchoring
unfolding reanchor_in
reanchor w f = reanchor_in w f (w.read_lines f.anchor.file)

-- `hunk.old_lines or 1`.
abbrev pub or_one : Option ℕ → ℕ
or_one none = 1
or_one (some n) = if n == 0 then 1 else n

-- The last hunk that ends at or before a line, by its ends on the two sides.
abbrev pub ends_of : ℕ → Option ℕ → Option ℕ → Hunk → Option (ℕ × ℕ) → Option (ℕ × ℕ)
ends_of number (some old_start) (some new_start) h before =
    let old_after = old_start + or_one h.old_lines in
    let new_after = new_start + or_one h.new_lines in
    if leb old_after number then some (old_after, new_after) else before
ends_of number _ _ h before = before

unfoldable pub last_ends : ℕ → List Hunk → Option (ℕ × ℕ) → Option (ℕ × ℕ)
last_ends number [] before = before
last_ends number (h ∷ hs) before =
    last_ends number hs (ends_of number h.old_start h.new_start h before)

-- `number + offset`, where the offset is 0 or the difference of a hunk's ends: the hunk ends at or
-- before the line, so the sum is not negative.
abbrev pub shifted : ℕ → Option (ℕ × ℕ) → ℕ
shifted number none = number
shifted number (some (old_after, new_after)) = number + new_after - old_after

abbrev opt_num_eq : Option ℕ → ℕ → Bool
opt_num_eq none n = false
opt_num_eq (some m) n = m == n

-- The context line with the old number; a context line has a new number.
unfoldable pub context_line : ℕ → List Line → Option Line
context_line number lines = next_of (λ l. is_context l.kind && opt_num_eq l.old_line number) lines

abbrev new_number : Option Line → Option ℕ
new_number none = none
new_number (some l) = l.new_line

abbrev pub given_line : Option ℕ → ℕ → ℕ
given_line none n = n
given_line (some m) n = m

-- `follow`.
unfoldable pub follow_in : ℕ → DiffFile → ℕ
unfolding last_ends context_line
follow_in number f =
    given_line (new_number (context_line number f.lines))
      (max 1 (shifted number (last_ends number f.hunks none)))

abbrev pub follow : ℕ → Option DiffFile → ℕ
unfolding follow_in
follow number none = number
follow number (some f) = follow_in number f

-- Where a published finding is expected now: (path, start, end).
pub record Place : Type 0 where
  pub path : String
  pub start : ℕ
  pub end_line : ℕ

abbrev pub place_of : Finding → Place
place_of f = record {
  path = f.anchor.file;
  start = f.anchor.line_start;
  end_line = f.anchor.line_end;
}

abbrev pub followed : Finding → Option DiffFile → Place
unfolding follow
followed old file =
    let start = follow old.anchor.line_start file in
    record {
      path = elim file [ none ↦ old.anchor.file | some f ↦ f.path ];
      start = start;
      end_line = max start (follow old.anchor.line_end file);
    }

abbrev pub expected : Finding → Option DiffFile → Anchoring → Place
unfolding followed
expected old file (unchanged f) = place_of f
expected old file (moved f) = place_of f
expected old file _ = followed old file

-- `changed.get(file)`: a later file of the delta replaces an earlier one with the same old path.
unfoldable pub changed_file : String → List DiffFile → Option DiffFile
changed_file path [] = none
changed_file path (f ∷ fs) = later (changed_file path fs)
  where
    old_name : Option String → String
    old_name none = f.path
    old_name (some p) = if str_eq p "" then f.path else p

    later : Option DiffFile → Option DiffFile
    later (some g) = some g
    later none = if str_eq (old_name f.old_path) path then some f else none

-- The condition under which a fresh finding takes over an identity; `known` are the published ones.
unfoldable pub takes_over : List String → Finding → Place → ℕ → Finding → Bool
takes_over known old p tolerance new =
    not (str_mem new.fingerprint known)
    && (str_eq new.anchor.file p.path
        && (str_eq new.category old.category
            && (leb new.anchor.line_start (p.end_line + tolerance)
                && leb p.start (new.anchor.line_end + tolerance))))

abbrev pub rename : String → Finding → Finding
rename fingerprint f = record f { fingerprint = fingerprint }

-- The findings after the inner loop, and the fingerprints taken.
unfoldable pub adopt_one :
    List String → ℕ → Worktree → List DiffFile → Finding → List Finding → List Finding
unfolding takes_over reanchor expected changed_file update_first
adopt_one known tolerance w delta old findings =
    update_first
      (takes_over known old (expected old (changed_file old.anchor.file delta) (reanchor w old))
        tolerance)
      (rename old.fingerprint) findings

-- The outer loop: an identity that some fresh finding has by now is not given again. (The source's
-- `taken` keeps the fingerprints that were replaced as well; none of these is a published one.)
unfoldable pub adopt_all :
    List String → ℕ → Worktree → List DiffFile → List Finding → List Finding → List Finding
unfolding adopt_one
adopt_all known tolerance w delta [] findings = findings
adopt_all known tolerance w delta (old ∷ olds) findings =
    let taken = any (λ f. str_eq f.fingerprint old.fingerprint) findings in
    adopt_all known tolerance w delta olds
      (if taken then findings else adopt_one known tolerance w delta old findings)

-- `adopt_identities`.
unfoldable pub adopt_identities :
    List Finding → List Finding → Worktree → List DiffFile → ℕ → List Finding
unfolding adopt_all
adopt_identities findings previous w delta tolerance =
    adopt_all (map (λ f. f.fingerprint) previous) tolerance w delta previous findings

-- `previous`, a dict of which each key may be missing.
pub record Previous : Type 0 where
  pub partial : Option Bool
  pub config_hash : Option String
  pub prompt_hash : Option String
  pub full_rereview_merge_base_delta : Option ℕ

-- `full_review`.
unfoldable pub full_review : Option Previous → String → String → ℕ → Bool
full_review none config_hash prompt_hash merge_base_distance = true
full_review (some p) config_hash prompt_hash merge_base_distance =
    given_bool p.partial
    || not (opt_str_eq p.config_hash (some config_hash))
    || not (opt_str_eq p.prompt_hash (some prompt_hash))
    || ltb (given_line p.full_rereview_merge_base_delta 50) merge_base_distance
  where
    given_bool : Option Bool → Bool
    given_bool none = true
    given_bool (some b) = b
