-- ===== src/Publish/Posting.antt =====
-- The publication of a report (`Publisher.publish` of reviewer/publish/publisher.py) in applied mode,
-- on the merge request's discussions and the stored comments. The forge is the parameter `Remote`.
pub mod Outcomes
pub mod Bounds
pub mod Again
pub mod Twice
pub mod Errors
use code_reviewer.Prelude.{
  ℕ, ◌+◌, ◌-◌, String, Bool, true, false, not, ◌&&◌, ◌||◌, Option, none, some, List, [], ◌∷◌, ◌++◌,
  map, leb, ◌==◌, if◌then◌else◌, length, any, select_if, next_of,
}
use code_reviewer.Prelude.Text.{Text, codes, text_eq, str_eq}
use code_reviewer.Findings.Models.{published, Finding}
use code_reviewer.Context.Diff.{DiffFile, Line}
use code_reviewer.Findings.Selection.{count_of, add_one, Selection, Counter}
use code_reviewer.Publish.Markers.{owns_body, marker, fingerprints_in, closing}

pub record Note : Type 0 where
  pub body : Text
  pub author_id : ℕ

pub record Discussion : Type 0 where
  pub id : ℕ
  pub resolved : Bool
  pub file : Option String
  pub notes : List Note

-- The client that publishes: the service's own, or one bound to an owner.
pub record Client : Type 0 where
  pub bot : ℕ
  pub owner_user_id : Option Text

-- What a client bound to an owner appends to the bodies that it posts (`PersonalForge` of
-- reviewer/accounts/execution.py).
abbrev pub stamp : Option Text → Text → Text
stamp none body = body
stamp (some owner) body = body ++ (codes "\n\n<!-- ai-review:owner=" ++ (owner ++ closing))

-- The notes of one discussion that `existing` reads.
unfoldable pub entries_of : Client → Discussion → List Note → List (Text × Discussion)
unfolding owns_body
entries_of c d [] = []
entries_of c d (n ∷ ns) =
    let rest = entries_of c d ns in
    if n.author_id == c.bot && (not d.resolved && owns_body c.owner_user_id n.body)
    then map (λ fp. (fp, d)) (fingerprints_in n.body) ++ rest
    else rest

-- `existing`, a dict in which a later entry replaces an earlier one with its key.
unfoldable pub existing : Client → List Discussion → List (Text × Discussion)
unfolding entries_of
existing c [] = []
existing c (d ∷ ds) = entries_of c d d.notes ++ existing c ds

-- `fp in fingerprints`.
abbrev pub is_open : Text → List (Text × Discussion) → Bool
is_open fp entries = any (λ e. text_eq fp e.0) entries

-- `not d.resolved and any(FINGERPRINT.search(n.body) for n in d.notes)`.
unfoldable pub counts : Discussion → Bool
counts d = not d.resolved && any (λ n. not (is_empty (fingerprints_in n.body))) d.notes
  where
    is_empty : List Text → Bool
    is_empty [] = true
    is_empty (x ∷ xs) = false

-- A stored comment (`entry` of reviewer/publish/comments.py), for the fields that publication reads
-- or writes; `removed` is `status == "removed" or intent == "remove"`.
pub record Entry : Type 0 where
  pub key : String
  pub body : Text
  pub removed : Bool
  pub committed : Bool
  pub eligible : Bool

abbrev pub new_entry : String → Text → Entry
new_entry key body = record {
  key = key;
  body = body;
  removed = false;
  committed = false;
  eligible = true;
}

abbrev pub has_key : String → Entry → Bool
has_key key e = str_eq e.key key

-- `remember(key, body, **fields)`: the stored entry, or a new one, with the fields changed.
unfoldable pub remember : String → Text → (Entry → Entry) → List Entry → List Entry
remember key body change [] = change (new_entry key body) ∷ []
remember key body change (e ∷ es) =
    let rest = remember key body change es in if has_key key e then change e ∷ es else e ∷ rest

abbrev pub is_removed : Option Entry → Bool
is_removed none = false
is_removed (some e) = e.removed

-- `saved.get("body") or body`.
abbrev pub saved_or : Option Entry → Text → Text
saved_or none body = body
saved_or (some e) body = elim e.body [ [] ↦ body | c ∷ s ↦ c ∷ s ]

-- What a publication calls: the queries for the head, the reads at the start, the store's writes of a
-- body before its comment and of what became of it after, the posts, and the same of the summary.
pub data Call : Type 0 where
  query_head read_discussions save_body post_comment save_comment save_summary post_note save_note :
      Call

-- The forge and the store: the head at the k-th query, whether the forge can place a finding's comment
-- (else `PositionError`), the ids of discussions, and whether a call raises another exception, the
-- checks of credentials included; the number of a call is that of the queries before it.
pub record Remote : Type 0 where
  pub head : ℕ → String
  pub raises : Call → ℕ → Bool
  pub can_place : Finding → Bool
  pub new_id : ℕ → ℕ

-- What the run publishes: the reviewed head, its files, the limits and the text of a comment before
-- its footer.
pub record Report : Type 0 where
  pub head_sha : String
  pub files : List DiffFile
  pub max_inline : ℕ
  pub max_per_file : ℕ
  pub table : Finding → Text

abbrev pub footer : Text
footer =
    codes
      "\n\n<sub>AI review · reply `/ai explain` for evidence · reply `/ai dismiss <reason>` if this is wrong</sub>\n"

-- `render`.
abbrev pub render : Report → Finding → Text
render r f = r.table f ++ (footer ++ marker (codes f.fingerprint))

-- The variables of the loop, the discussions of the merge request and the stored comments. `asked`
-- counts the queries.
pub record Posting : Type 0 where
  pub slots : ℕ
  pub per_file : Counter
  pub overflow : Counter
  pub summarized : List Finding
  pub posted : List Finding
  pub discussions : List Discussion
  pub tracked : List Entry
  pub asked : ℕ

-- A pass goes on, or ends the publication with an exception: the head has moved, a finding's file is
-- not among those of the change, or a call raised. With an exception, the variables of the loop are
-- of no more use: what counts are the discussions and the stored comments.
pub data Progress : Type 0 where
  going : Posting → Progress
  stale : Posting → Progress
  raised : Posting → Progress
  no_file : Posting → Progress

abbrev opt_num_eq : Option ℕ → ℕ → Bool
opt_num_eq none n = false
opt_num_eq (some m) n = m == n

-- The line of the diff that the anchor starts at.
abbrev pub line_at : DiffFile → ℕ → Option Line
line_at file n = next_of (λ l. opt_num_eq l.new_line n) file.lines

-- `Counter(d.file for d in mr_open if d.file)`.
abbrev pub file_counts : List Discussion → Counter → Counter
file_counts [] k = k
file_counts (d ∷ ds) k = file_counts ds (elim d.file [ none ↦ k | some file ↦ add_one file k ])

abbrev pub comment_on : Client → String → Text → ℕ → Discussion
comment_on c file body id = record {
  id = id;
  resolved = false;
  file = some file;
  notes = record { body = stamp c.owner_user_id body; author_id = c.bot } ∷ [];
}

-- `f.status = "published"`.
abbrev pub as_published : Finding → Finding
as_published f = record f { status = published }

module _ (c : Client) (m : Remote) (r : Report) where
  -- The write of one comment, with what is recorded of it.
  abbrev pub write : Finding → Text → Posting → Posting
  write f body s = record s {
    slots = s.slots - 1;
    per_file = add_one f.anchor.file s.per_file;
    posted = s.posted ++ (as_published f ∷ []);
    discussions = s.discussions ++ (comment_on c f.anchor.file body (m.new_id s.asked) ∷ []);
    tracked = remember f.fingerprint body (λ e. record e { committed = true }) s.tracked;
  }

  -- A comment that cannot be placed goes to the summary.
  abbrev pub reject : Finding → Text → Posting → Posting
  reject f body s = record s {
    summarized = s.summarized ++ (f ∷ []);
    tracked = remember f.fingerprint body (λ e. record e { eligible = false }) s.tracked;
  }

  abbrev pub ended : Bool → Posting → Progress
  ended true s = raised s
  ended false s = going s

  abbrev pub post_at : Finding → Option Line → Posting → Progress
  post_at f none s = going (record s { summarized = s.summarized ++ (f ∷ []) })
  post_at f (some l) s =
      let body = saved_or (next_of (has_key f.fingerprint) s.tracked) (render r f) in
      let t = record s { tracked = remember f.fingerprint body (λ e. e) s.tracked } in
      if m.raises save_body s.asked || m.raises post_comment s.asked
      then raised t
      else ended (m.raises save_comment s.asked)
          (if m.can_place f then write f body t else reject f body t)

  abbrev pub post_in : Finding → Option DiffFile → Posting → Progress
  post_in f none s = no_file s
  post_in f (some file) s = post_at f (line_at file f.anchor.line_start) s

  -- The body of the loop over the inline findings; `before` are the entries of `existing`.
  unfoldable pub post_one : List (Text × Discussion) → Finding → Posting → Progress
  unfolding count_of
  post_one before f s =
      let t = record s { asked = s.asked + 1 } in
      if is_removed (next_of (has_key f.fingerprint) s.tracked)
        || is_open (codes f.fingerprint) before
      then going s
      else if s.slots == 0 || leb r.max_per_file (count_of f.anchor.file s.per_file)
      then going (record s { overflow = add_one f.category s.overflow })
      else if m.raises query_head s.asked
      then raised t
      else if not (str_eq (m.head s.asked) r.head_sha)
      then stale t
      else post_in f (next_of (λ x. str_eq x.path f.anchor.file) r.files) t

  unfoldable pub post_all : List (Text × Discussion) → List Finding → Posting → Progress
  unfolding post_one
  post_all before [] s = going s
  post_all before (f ∷ fs) s = elim (post_one before f s) [
    | going t ↦ post_all before fs t
    | stale t ↦ stale t
    | raised t ↦ raised t
    | no_file t ↦ no_file t
  ]

  -- The slots that open comments leave, and the comments that each file has.
  unfoldable pub start : List Discussion → List Entry → Selection → Posting
  unfolding counts
  start discussions tracked chosen =
      let open_ones = select_if counts discussions in
      record {
        slots = r.max_inline - length open_ones;
        per_file = file_counts open_ones [];
        overflow = chosen.overflow;
        summarized = chosen.summary;
        posted = [];
        discussions = discussions;
        tracked = tracked;
        asked = 1;
      }

  -- The publication up to the summary; the first query is that of the diff's refs, after the read of
  -- the stored comments.
  unfoldable pub publish_inline : List Discussion → List Entry → Selection → Progress
  unfolding start existing post_all
  publish_inline discussions tracked chosen =
      let s = start discussions tracked chosen in
      if m.raises query_head 0
      then raised s
      else if not (str_eq (m.head 0) r.head_sha)
      then stale s
      else if m.raises read_discussions 0
      then raised s
      else post_all (existing c discussions) chosen.inline s
