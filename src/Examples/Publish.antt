-- ===== src/Examples/Publish.antt =====
-- Examples for the publication of comments (reviewer/publish/publisher.py).
use code_reviewer.Prelude.{
  ◌+◌, ◌≤◌, max, String, ◌≡◌, refl, true, false, none, some, [], ◌∷◌, ◌++◌, length, any, All,
}
use code_reviewer.Prelude.Text.{Text, codes, text_eq, str_eq}
use code_reviewer.Findings.Models.{Finding}
use code_reviewer.Context.Diff.{DiffFile, added}
use code_reviewer.Findings.Selection.{add_one, count_of, Selection, no_selection}
use code_reviewer.Publish.Markers.{
  marker, fingerprints_in, fingerprint_pattern, replicate, find_all, matches, owner_run, owner_of,
  owns_body,
}
use code_reviewer.Publish.Markers.Laws.{IsFingerprint, fingerprints_in-marker}
use code_reviewer.Publish.Posting.{
  going, stamp, Posting, post_all, post_one, remember, publish_inline, Report, Remote, Client,
  start, existing, entries_of, counts,
}
use code_reviewer.Publish.Posting.Outcomes.{state_of}
use code_reviewer.Publish.Posting.Bounds.{publish_inline-within_limits, comments_in}
use code_reviewer.Publish.Posting.Errors.{Explained, publish_inline-explained}
use code_reviewer.Publish.Posting.Twice.{Publishable, publish_again}
use code_reviewer.Examples.Sample.{claim_at}
use code_reviewer.Findings.Pages.{starts_with}
use code_reviewer.Publish.Summary.{summary_marker, then_summary, publish, post_summary}
use code_reviewer.Publish.Summary.Laws.{publish-summary_once}

program : Unit {0}
unfolding fingerprint_pattern replicate find_all matches owner_run owner_of owns_body entries_of
    existing counts remember count_of add_one post_one post_all start publish_inline starts_with
program = tt

abbrev key : String
key = "0123456789abcdef0123456789abcdef"

key_fits : IsFingerprint (codes key)
key_fits = record { long = refl; digits = refl }

fingerprints_in-marker_example :
    any
      (text_eq (codes key))
      (fingerprints_in (codes "A note " ++ (marker (codes key) ++ codes " in the middle.")))
    ≡ true
fingerprints_in-marker_example =
    fingerprints_in-marker (codes "A note ") (codes key) (codes " in the middle.") key_fits

abbrev finding : Finding
finding = claim_at "correctness" key 4

abbrev service : Client
service = record { bot = 7; owner_user_id = none }

abbrev file : DiffFile
file = record {
  path = "a.py";
  old_path = none;
  hunks = [];
  symbol_ranges = [];
  lines = record { text = codes "x = 1"; old_line = none; new_line = some 4; kind = added } ∷ [];
  scope = [];
}

abbrev report : Report
report = record {
  head_sha = "h1";
  files = file ∷ [];
  max_inline = 3;
  max_per_file = 2;
  table = λ f. f.claim;
}

abbrev forge : Remote
forge = record {
  head = λ k. "h1";
  raises = λ call k. false;
  can_place = λ f. true;
  new_id = λ k. k;
}

abbrev chosen : Selection
chosen = record no_selection { inline = finding ∷ [] }

finding-Publishable : Publishable service report finding
unfolding program
finding-Publishable = record { fits = key_fits; owned = refl }

-- The first publication posts the finding, the second does not.
first_posts : length (state_of (publish_inline service forge report [] [] chosen)).posted ≡ 1
unfolding program
first_posts = refl

second_skips :
    let ds = (state_of (publish_inline service forge report [] [] chosen)).discussions in
    length (state_of (publish_inline service forge report ds [] chosen)).posted ≡ 0
unfolding program
second_skips = refl

publish_again_example :
    let first = state_of (publish_inline service forge report [] [] chosen) in
    let second =
      state_of (publish_inline service forge report (first.discussions ++ []) [] chosen) in
    All (λ f. any (λ g. str_eq g.fingerprint f.fingerprint) second.posted ≡ false) first.posted
publish_again_example =
    publish_again service forge forge report report [] [] [] [] chosen chosen
      (finding-Publishable, tt) tt

publish_inline-within_limits_example :
    let end = (state_of (publish_inline service forge report [] [] chosen)).discussions in
    (length end + 0 ≤ 0 + max 3 0) × ((path : String) → comments_in path end + 0 ≤ 0 + max 2 0)
publish_inline-within_limits_example =
    publish_inline-within_limits service forge report [] [] chosen

publish_inline-explained_example :
    Explained service forge report []
      (existing service [])
      chosen.inline
      (publish_inline service forge report [] [] chosen)
publish_inline-explained_example = publish_inline-explained service forge report [] [] chosen

-- A text without a marker.
abbrev summary_text : Posting → Text
summary_text s = codes "One finding."

no_marker :
    (s : Posting)
    → owns_body service.owner_user_id
        (stamp service.owner_user_id (summary_text s ++ summary_marker report.head_sha))
      ≡ true
unfolding program
no_marker s = refl

abbrev end : Posting
end = state_of (publish service forge report summary_text [] [] chosen)

goes_through : publish service forge report summary_text [] [] chosen ≡ going end
unfolding program post_summary then_summary publish
goes_through = refl

two_discussions : length end.discussions ≡ 2
unfolding program post_summary then_summary publish
two_discussions = refl

publish-summary_once_example :
    (state_of
      (publish service forge report summary_text (end.discussions ++ []) [] chosen)).discussions
    ≡ (state_of (publish_inline service forge report (end.discussions ++ []) [] chosen)).discussions
publish-summary_once_example =
    publish-summary_once service forge forge report report summary_text summary_text [] [] [] []
      chosen chosen end (key_fits, tt) tt no_marker refl goes_through
