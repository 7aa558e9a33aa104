-- ===== src/Findings/Validation.antt =====
-- Validation of a proposal against the reviewed code (reviewer/findings/validator.py). The files of
-- the worktree, the hash, the symbol index and git are the parameter `Worktree`: `read_lines` is
-- none for a path that is no readable file of the tree.
pub mod Laws
use code_reviewer.Prelude.{
  ℕ, ◌-◌, String, Bool, true, false, not, ◌&&◌, Option, none, some, List, [], ◌∷◌, ltb, leb,
  if◌then◌else◌, length, any, all, select_if, next_of, take, drop,
}
use code_reviewer.Prelude.Text.{Text, str_eq, str_mem}
use code_reviewer.Findings.Models.{Finding, Anchor, Evidence, discarded, downgraded, suppressed}

-- `DiffLine` and `ChangedFile` (reviewer/context/models.py), for the fields that validation reads.
pub data LineKind : Type 0 where
  added removed context : LineKind

pub record DiffLine : Type 0 where
  pub new_line : Option ℕ
  pub kind : LineKind

pub record ChangedFile : Type 0 where
  pub path : String
  pub lines : List DiffLine

-- What git says of the anchored lines: the commits of the change, and the commit that each line
-- comes from; none where a command fails.
pub record Git : Type 0 where
  pub change_commits : Option (List String)
  pub blame_lines : String → ℕ → ℕ → Option (List String)

pub record Worktree : Type 0 where
  pub read_lines : String → Option (List Text)
  pub sha256_of : List Text → String
  pub resolves : String → String → Bool
  pub git : Option Git

-- What the bundle says of the change.
pub record Change : Type 0 where
  pub head_sha : String
  pub files : List ChangedFile

abbrev pub line_count : Option (List Text) → ℕ
line_count none = 0
line_count (some lines) = length lines

-- `valid_range`: an unreadable file has no line, so no range of it is valid.
unfoldable pub valid_range : Option (List Text) → ℕ → ℕ → Bool
valid_range lines start end_line =
    leb 1 start && (leb start end_line && leb end_line (line_count lines))

abbrev is_text : Text → Bool
is_text [] = false
is_text (c ∷ cs) = true

-- `lines[start - 1 : end]`.
abbrev pub slice : Option (List Text) → ℕ → ℕ → List Text
slice none start end_line = []
slice (some lines) start end_line = drop (start - 1) (take end_line lines)

-- The condition on one citation: a valid range with a line that is not empty.
unfoldable pub evidence_holds : Worktree → Evidence → Bool
unfolding valid_range
evidence_holds w e =
    let lines = w.read_lines e.file in
    valid_range lines e.line_start e.line_end && any is_text (slice lines e.line_start e.line_end)

abbrev pub is_added : LineKind → Bool
is_added added = true
is_added _ = false

-- `line.new_line and a.line_start <= line.new_line <= a.line_end`.
abbrev within : ℕ → ℕ → Option ℕ → Bool
within start end_line none = false
within start end_line (some n) = ltb 0 n && (leb start n && leb n end_line)

unfoldable pub anchor_lines : ChangedFile → Anchor → List DiffLine
anchor_lines f a = select_if (λ l. within a.line_start a.line_end l.new_line) f.lines

abbrev any_blamed : Option (List String) → Option (List String) → Bool
any_blamed (some commits) (some shas) = any (λ s. str_mem s commits) shas
any_blamed _ _ = false

-- The attribution of the added lines to the change's commits: false where git cannot say.
abbrev pub attributed : Option Git → Anchor → Bool → Bool
attributed none a introduced = introduced
attributed (some g) a introduced =
    if introduced
    then any_blamed g.change_commits (g.blame_lines a.file a.line_start a.line_end)
    else false

-- Where the anchor lies in the diff: (in_diff, introduced_by_this_change).
abbrev pub placed : Worktree → Anchor → Option ChangedFile → Bool × Bool
unfolding anchor_lines
placed w a none = (false, false)
placed w a (some f) =
    let lines = anchor_lines f a in
    (ltb 0 (length lines), attributed w.git a (any (λ l. is_added l.kind) lines))

abbrev resolved_symbol : Worktree → Anchor → Option String → Option String
resolved_symbol w a none = none
resolved_symbol w a (some s) = if w.resolves a.file s then some s else none

-- The anchor with every field reset that code owns.
abbrev pub reset : Change → Anchor → Anchor
reset c a = record a {
  commit_sha = c.head_sha;
  context_hash = "";
  in_diff = false;
  introduced_by_this_change = false;
}

-- The early return of a fabricated anchor.
abbrev pub fabricated : Finding → Anchor → Finding
fabricated f a = record f {
  anchor = a;
  status = discarded;
  validation =
      some (record { valid = false; reasons = "fabricated_anchor" ∷ []; evidence_valid = true });
}

unfoldable pub validate : Worktree → Change → List String → Finding → Finding
unfolding valid_range evidence_holds placed
validate w c open_fingerprints f =
    let a = reset c f.anchor in
    let lines = w.read_lines a.file in
    let evidence_valid = all (evidence_holds w) f.evidence in
    let (in_diff, introduced) = placed w a (next_of (λ g. str_eq g.path a.file) c.files) in
    let status = if evidence_valid then f.status else downgraded in
    if not (valid_range lines a.line_start a.line_end) then fabricated f a else record f {
      anchor = record a {
        context_hash = w.sha256_of (slice lines a.line_start a.line_end);
        symbol = resolved_symbol w a a.symbol;
        in_diff = in_diff;
        introduced_by_this_change = introduced;
      };
      validation = some (record {
        valid = true;
        reasons = if evidence_valid then [] else "invalid_evidence" ∷ [];
        evidence_valid = evidence_valid;
      });
      status = if str_mem f.fingerprint open_fingerprints then suppressed else status;
    }
