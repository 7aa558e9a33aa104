-- ===== src/Publish/Posting/Bounds.antt =====
-- How many comments a publication writes (reviewer/publish/publisher.py).
use code_reviewer.Prelude.{
  ℕ, ◌+◌, ◌-◌, ◌≤◌, max, String, ◌≡◌, refl, Option, none, some, List, [], ◌∷◌, ◌++◌, arith,
  if◌then◌else◌, length, select_if, length-append,
}
use code_reviewer.Prelude.Text.{Text, opt_str_eq}
use text.Mathlib.TextEquality.{eq_iff}
use code_reviewer.Findings.Selection.{add_one}
use code_reviewer.Publish.Posting.{comment_on}
use code_reviewer.Publish.Posting.Outcomes.{
  no_answer, not_posted, not_rejected, not_saved, MayWrite, body_of, ready,
}
use code_reviewer.Publish.Posting.{write}
use code_reviewer.Findings.Models.{Finding}
use code_reviewer.Publish.Posting.{
  start, existing, file_counts, counts, publish_inline, Entry, Progress, Posting, Discussion,
  Remote, Report, Client,
}
use code_reviewer.Findings.Selection.{add_one, Selection, count_of, Counter}
use code_reviewer.Publish.Posting.Outcomes.{
  publish_inline-keeps_always, Outcome, left_out, counted, moved_on, lost, no_line, rejected,
  written, state_of,
}
use code_reviewer.Findings.Selection.Limits.{count_of-add_one, select_if-append}

-- The comments in a file.
abbrev pub comments_in : String → List Discussion → ℕ
comments_in file ds = length (select_if (λ d. opt_str_eq d.file (some file)) ds)

comments_in-append :
    (file : String) (ds es : List Discussion)
    → comments_in file (ds ++ es) ≡ comments_in file ds + comments_in file es
comments_in-append file ds es = ground (
  arith,
  select_if-append (λ d. opt_str_eq d.file (some file)) ds es,
  length-append (select_if (λ d. opt_str_eq d.file (some file)) ds)
      (select_if (λ d. opt_str_eq d.file (some file)) es),
)

count_file :
    (file : String) (d : Discussion) (k : Counter)
    → count_of file (elim d.file [ none ↦ k | some x ↦ add_one x k ])
      ≡ count_of file k + comments_in file (d ∷ [])
count_file file d k = by_file d.file
  where
    by_file :
        (o : Option String)
        → count_of file (elim o [ none ↦ k | some x ↦ add_one x k ])
          ≡ count_of file k + length (if opt_str_eq o (some file) then d ∷ [] else [])
    by_file none = omega arith
    by_file (some x) = ground (arith, count_of-add_one x file k)

comments_in-file_counts :
    (file : String) (ds : List Discussion) (k : Counter)
    → count_of file (file_counts ds k) ≡ count_of file k + comments_in file ds
comments_in-file_counts file [] k = omega arith
comments_in-file_counts file (d ∷ ds) k = omega (
  arith,
  comments_in-file_counts file ds (elim d.file [ none ↦ k | some x ↦ add_one x k ]),
  count_file file d k,
  comments_in-append file (d ∷ []) ds,
)

-- The slots used and left, and the comments of each file, as against the discussions at the start.
record Within (r : Report) (slots : ℕ) (ds : List Discussion) (k : Counter) (s : Posting)
    : Type 0 where
  used : length s.discussions + s.slots ≡ length ds + slots
  counted :
      (file : String)
      → comments_in file s.discussions + count_of file k
        ≡ comments_in file ds + count_of file s.per_file
  per_file : (file : String) → count_of file s.per_file ≤ max r.max_per_file (count_of file k)

same_counters :
    (r : Report) (slots : ℕ) (ds : List Discussion) (k : Counter) (s t : Posting)
    → t.discussions ≡ s.discussions
    → t.slots ≡ s.slots
    → t.per_file ≡ s.per_file
    → Within r slots ds k s
    → Within r slots ds k t
same_counters r slots ds k s t a b c h = record {
  used = rw (a, b) h.used;
  counted = λ file. rw (a, c) (h.counted file);
  per_file = λ file. rw c (h.per_file file);
}

module _ (c : Client) (m : Remote) (r : Report) (before : List (Text × Discussion)) (slots : ℕ)
    (ds : List Discussion) (k : Counter) where
  write-Within :
      (f : Finding) (s : Posting)
      → MayWrite c m r before f s
      → Within r slots ds k s
      → Within r slots ds k (write c m r f (body_of r f s) (ready r f s))
  write-Within f s w h =
      let d = comment_on c f.anchor.file (body_of r f s) (m.new_id (s.asked + 1)) in
      record {
        used = ground (arith, h.used, w.slot_left, length-append s.discussions (d ∷ []));
        counted = λ file. ground (
          arith,
          h.counted file,
          comments_in-append file s.discussions (d ∷ []),
          count_of-add_one f.anchor.file file s.per_file,
        );
        per_file = λ file. ground (
          arith,
          h.per_file file,
          count_of-add_one f.anchor.file file s.per_file,
          eq_iff f.anchor.file file,
          w.file_left,
        );
      }

  outcome-Within :
      (f : Finding) (s : Posting) (p : Progress)
      → Within r slots ds k s
      → Outcome c m r before f s p
      → Within r slots ds k (state_of p)
  outcome-Within f s p h (left_out e) = h
  outcome-Within f s p h (written w) = write-Within f s w h
  outcome-Within f s p h (not_saved w e) = write-Within f s w h
  outcome-Within f s p h counted = same_counters r slots ds k s (state_of p) refl refl refl h
  outcome-Within f s p h (moved_on g) = same_counters r slots ds k s (state_of p) refl refl refl h
  outcome-Within f s p h (lost e) = same_counters r slots ds k s (state_of p) refl refl refl h
  outcome-Within f s p h no_line = same_counters r slots ds k s (state_of p) refl refl refl h
  outcome-Within f s p h rejected = same_counters r slots ds k s (state_of p) refl refl refl h
  outcome-Within f s p h (no_answer e) = same_counters r slots ds k s (state_of p) refl refl refl h
  outcome-Within f s p h (not_posted e) = same_counters r slots ds k s (state_of p) refl refl refl h
  outcome-Within f s p h (not_rejected e) =
      same_counters r slots ds k s (state_of p) refl refl refl h

module _ (c : Client) (m : Remote) (r : Report) where
  publish_inline-Within :
      (ds : List Discussion) (tracked : List Entry) (chosen : Selection)
      → Within r
          (r.max_inline - length (select_if counts ds))
          ds
          (file_counts (select_if counts ds) [])
          (state_of (publish_inline c m r ds tracked chosen))
  unfolding start
  publish_inline-Within ds tracked chosen =
      let k = file_counts (select_if counts ds) [] in
      let slots = r.max_inline - length (select_if counts ds) in
      publish_inline-keeps_always c m r ds tracked chosen (Within r slots ds k)
        (outcome-Within c m r (existing c ds) slots ds k)
        (record {
          used = omega arith;
          counted = λ file. omega arith;
          per_file = λ file. omega arith;
        })

  -- However a publication ends, the discussions that it adds and the open ones are together at
  -- most max_inline, or as many as were open; and in each file those that it adds and the open
  -- ones are together at most max_per_file, or as many as were open.
  pub publish_inline-within_limits :
      (ds : List Discussion) (tracked : List Entry) (chosen : Selection)
      → let end = (state_of (publish_inline c m r ds tracked chosen)).discussions in
        let open_ones = select_if counts ds in
        (length end + length open_ones ≤ length ds + max r.max_inline (length open_ones))
        × ((file : String)
            → comments_in file end + comments_in file open_ones
              ≤ comments_in file ds + max r.max_per_file (comments_in file open_ones))
  publish_inline-within_limits ds tracked chosen =
      let h = publish_inline-Within ds tracked chosen in
      let open_ones = select_if counts ds in
      (
        omega (arith, h.used),
        λ file.
            ground
              (arith, h.counted file, h.per_file file, comments_in-file_counts file open_ones []),
      )
