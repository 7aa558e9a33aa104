-- ===== src/Publish/Summary.antt =====
-- The summary note of a publication (`Publisher.publish` of reviewer/publish/publisher.py, in applied
-- mode), after the inline findings. The text of the summary before its marker is a parameter, a
-- function of what the loop over the findings recorded.
pub mod Laws
use code_reviewer.Prelude.{
  ℕ, ◌+◌, String, Bool, true, false, not, ◌&&◌, ◌||◌, none, List, [], ◌∷◌, ◌++◌, ◌==◌,
  if◌then◌else◌, any, next_of,
}
use code_reviewer.Prelude.Text.{Text, codes, str_eq}
use code_reviewer.Findings.Pages.{occurs}
use code_reviewer.Findings.Selection.{Selection}
use code_reviewer.Publish.Markers.{closing, owns_body}
use code_reviewer.Publish.Posting.{ended, raised, save_summary, query_head, post_note, save_note}
use code_reviewer.Publish.Posting.{
  Client, Discussion, Note, Entry, Remote, Report, Posting, Progress, going, stale, stamp, remember,
  has_key, saved_or, is_removed, publish_inline,
}

abbrev pub summary_marker : String → Text
summary_marker head_sha = codes "<!-- ai-review:summary=" ++ (codes head_sha ++ closing)

-- `marker in n.body and n.author_id == bot and owns_body(self.forge, n.body)`.
unfoldable pub is_summary : Client → String → Note → Bool
unfolding occurs
is_summary c head_sha n =
    occurs (summary_marker head_sha) n.body
    && (n.author_id == c.bot && owns_body c.owner_user_id n.body)

abbrev pub has_summary : Client → String → List Discussion → Bool
has_summary c head_sha ds = any (λ d. any (is_summary c head_sha) d.notes) ds

abbrev pub summary_note : Client → Text → ℕ → Discussion
summary_note c body id = record {
  id = id;
  resolved = false;
  file = none;
  notes = record { body = stamp c.owner_user_id body; author_id = c.bot } ∷ [];
}

abbrev pub summary_body : Report → (Posting → Text) → Posting → Text
summary_body r text s =
    saved_or (next_of (has_key "summary") s.tracked) (text s ++ summary_marker r.head_sha)

abbrev pub noted : Text → (Entry → Entry) → Posting → Posting
noted body change s = record s { tracked = remember "summary" body change s.tracked }

module _ (c : Client) (m : Remote) (r : Report) (text : Posting → Text) where
  abbrev pub write_summary : Text → Posting → Posting
  write_summary body s =
      noted body (λ e. record e { committed = true })
        (record s {
          discussions = s.discussions ++ (summary_note c body (m.new_id s.asked) ∷ []);
          asked = s.asked + 1;
        })

  -- The summary, where `ds` are the discussions that were read at the start.
  unfoldable pub post_summary : List Discussion → Posting → Progress
  unfolding is_summary
  post_summary ds s =
      let body = summary_body r text s in
      let t = noted body (λ e. e) s in
      if m.raises save_summary s.asked
      then raised t
      else if is_removed (next_of (has_key "summary") s.tracked) || has_summary c r.head_sha ds
      then going t
      else if m.raises query_head s.asked
      then raised (record t { asked = t.asked + 1 })
      else if not (str_eq (m.head s.asked) r.head_sha)
      then stale (record t { asked = t.asked + 1 })
      else if m.raises post_note s.asked
      then raised (record t { asked = t.asked + 1 })
      else ended c m r (m.raises save_note s.asked) (write_summary body t)

  unfoldable pub then_summary : List Discussion → Progress → Progress
  unfolding post_summary
  then_summary ds (going s) = post_summary ds s
  then_summary ds p = p

  -- `Publisher.publish` in applied mode.
  unfoldable pub publish : List Discussion → List Entry → Selection → Progress
  unfolding publish_inline then_summary
  publish ds tracked chosen = then_summary ds (publish_inline c m r ds tracked chosen)
