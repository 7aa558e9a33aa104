-- ===== src/Publish/Summary/Laws.antt =====
-- One summary for each head (reviewer/publish/publisher.py).
use code_reviewer.Prelude.{
  ℕ, ◌+◌, String, ◌≡◌, refl, sym, ap, inl, inr, true, false, none, List, [], ◌∷◌, ◌++◌, arith,
  Bool-cases, length, any, next_of, All, any-append,
}
use code_reviewer.Prelude.Text.{Text, codes, str_eq, eq_of_str_eq}
use mathlib.Core.Path.{subst}
use code_reviewer.Publish.Markers.Laws.{IsFingerprint}
use code_reviewer.Publish.Posting.{
  raised, save_summary, query_head, post_note, save_note, reject, write,
}
use code_reviewer.Publish.Posting.Outcomes.{no_answer, not_posted, not_rejected, not_saved}
use code_reviewer.Publish.Posting.{remember, new_entry}
use code_reviewer.Publish.Posting.Outcomes.{publish_inline-keeps, ready}
use code_reviewer.Publish.Posting.Again.{remember-All}
use code_reviewer.Findings.Models.{Finding}
use code_reviewer.Publish.Markers.{owns_body}
use code_reviewer.Publish.Posting.{
  comment_on, Client, Discussion, Entry, Remote, Report, Posting, Progress, going, stale, no_file,
  stamp, has_key, is_removed, publish_inline, existing, start,
}
use code_reviewer.Publish.Posting.Outcomes.{
  body_of, Outcome, left_out, counted, moved_on, lost, no_line, rejected, written, state_of,
}
use code_reviewer.Publish.Recheck.Laws.{stamp-marked}
use code_reviewer.Publish.Summary.{
  is_summary, has_summary, post_summary, publish, summary_marker, summary_note, then_summary,
}
use code_reviewer.Findings.Selection.{Selection}

has_summary-append :
    (c : Client) (head : String) (ds es : List Discussion)
    → has_summary c head ds ≡ true
    → has_summary c head (ds ++ es) ≡ true
has_summary-append c head ds es h =
    ground (arith, h, any-append (λ d. any (is_summary c head) d.notes) ds es)

has_summary-appended :
    (c : Client) (head : String) (ds es : List Discussion)
    → has_summary c head es ≡ true
    → has_summary c head (ds ++ es) ≡ true
has_summary-appended c head ds es h =
    ground (arith, h, any-append (λ d. any (is_summary c head) d.notes) ds es)

summary_note-found :
    (c : Client) (head : String) (text : Text) (id : ℕ)
    → owns_body c.owner_user_id (stamp c.owner_user_id (text ++ summary_marker head)) ≡ true
    → has_summary c head (summary_note c (text ++ summary_marker head) id ∷ []) ≡ true
unfolding is_summary
summary_note-found c head text id owned =
    ground (arith, owned, stamp-marked c.owner_user_id text (summary_marker head))

-- What is stored has no summary.
abbrev NoSummary : Entry → Type 0
NoSummary e = has_key "summary" e ≡ false

fingerprint-is_no_summary : (fp : String) → IsFingerprint (codes fp) → str_eq fp "summary" ≡ false
fingerprint-is_no_summary fp fits = elim (Bool-cases (str_eq fp "summary")) [
  | inl e ↦
      absurd
        (omega (arith, subst (λ x. length (codes x) ≡ 32) (eq_of_str_eq fp "summary" e) fits.long))
  | inr e ↦ e
]

next_of-NoSummary : (es : List Entry) → All NoSummary es → next_of (has_key "summary") es ≡ none
next_of-NoSummary [] k = refl
next_of-NoSummary (e ∷ es) k = rw k.0 (next_of-NoSummary es k.1)

-- The state before the summary, where `ds` are the discussions that were read.
record BeforeSummary (c : Client) (head : String) (ds : List Discussion) (s : Posting)
    : Type 0 where
  seen : has_summary c head ds ≡ true → has_summary c head s.discussions ≡ true
  fresh : All NoSummary s.tracked

module _ (c : Client) (m : Remote) (r : Report) (head : String) (ds : List Discussion)
    (before : List (Text × Discussion)) where
  remember-NoSummary :
      (f : Finding) (body : Text) (change : Entry → Entry) (es : List Entry)
      → IsFingerprint (codes f.fingerprint)
      → ((e : Entry) → (change e).key ≡ e.key)
      → All NoSummary es
      → All NoSummary (remember f.fingerprint body change es)
  remember-NoSummary f body change es fits same k =
      remember-All NoSummary f.fingerprint body change es
        (rw (same (new_entry f.fingerprint body)) (fingerprint-is_no_summary f.fingerprint fits))
        (λ e h. rw (same e) h) k

  -- A body is stored before what becomes of it is.
  stored :
      (f : Finding) (change : Entry → Entry) (s : Posting)
      → IsFingerprint (codes f.fingerprint)
      → ((e : Entry) → (change e).key ≡ e.key)
      → All NoSummary s.tracked
      → All NoSummary (remember f.fingerprint (body_of r f s) change (ready r f s).tracked)
  stored f change s fits same k =
      remember-NoSummary f (body_of r f s) change (ready r f s).tracked fits same
        (remember-NoSummary f (body_of r f s) (λ e. e) s.tracked fits (λ e. refl) k)

  reject-BeforeSummary :
      (f : Finding) (s : Posting)
      → IsFingerprint (codes f.fingerprint)
      → BeforeSummary c head ds s
      → BeforeSummary c head ds (reject c m r f (body_of r f s) (ready r f s))
  reject-BeforeSummary f s fits h = record {
    seen = h.seen;
    fresh = stored f (λ e. record e { eligible = false }) s fits (λ e. refl) h.fresh;
  }

  write-BeforeSummary :
      (f : Finding) (s : Posting)
      → IsFingerprint (codes f.fingerprint)
      → BeforeSummary c head ds s
      → BeforeSummary c head ds (write c m r f (body_of r f s) (ready r f s))
  write-BeforeSummary f s fits h = record {
    seen = λ e.
        has_summary-append c head s.discussions
          (comment_on c f.anchor.file (body_of r f s) (m.new_id (s.asked + 1)) ∷ []) (h.seen e);
    fresh = stored f (λ e. record e { committed = true }) s fits (λ e. refl) h.fresh;
  }

  outcome-BeforeSummary :
      (f : Finding) (s : Posting) (p : Progress)
      → IsFingerprint (codes f.fingerprint)
      → BeforeSummary c head ds s
      → Outcome c m r before f s p
      → BeforeSummary c head ds (state_of p)
  outcome-BeforeSummary f s p fits h (left_out e) = h
  outcome-BeforeSummary f s p fits h counted = record { seen = h.seen; fresh = h.fresh }
  outcome-BeforeSummary f s p fits h (moved_on g) = record { seen = h.seen; fresh = h.fresh }
  outcome-BeforeSummary f s p fits h (lost e) = record { seen = h.seen; fresh = h.fresh }
  outcome-BeforeSummary f s p fits h no_line = record { seen = h.seen; fresh = h.fresh }
  outcome-BeforeSummary f s p fits h rejected = reject-BeforeSummary f s fits h
  outcome-BeforeSummary f s p fits h (written w) = write-BeforeSummary f s fits h
  outcome-BeforeSummary f s p fits h (no_answer e) = record { seen = h.seen; fresh = h.fresh }
  outcome-BeforeSummary f s p fits h (not_posted e) = record {
    seen = h.seen;
    fresh = remember-NoSummary f (body_of r f s) (λ e. e) s.tracked fits (λ e. refl) h.fresh;
  }
  outcome-BeforeSummary f s p fits h (not_rejected e) = reject-BeforeSummary f s fits h
  outcome-BeforeSummary f s p fits h (not_saved w e) = write-BeforeSummary f s fits h

start-BeforeSummary :
    (c : Client) (m : Remote) (r : Report) (ds : List Discussion) (tracked : List Entry)
    (chosen : Selection)
    → All NoSummary tracked
    → BeforeSummary c r.head_sha ds (start c m r ds tracked chosen)
unfolding start
start-BeforeSummary c m r ds tracked chosen k = record { seen = λ h. h; fresh = k }

module _ (c : Client) (m : Remote) (r : Report) (text : Posting → Text) where
  -- After a summary that went through, the discussions hold it.
  post_summary-there :
      (ds : List Discussion) (s s' : Posting)
      → BeforeSummary c r.head_sha ds s
      → owns_body c.owner_user_id (stamp c.owner_user_id (text s ++ summary_marker r.head_sha))
        ≡ true
      → post_summary c m r text ds s ≡ going s'
      → has_summary c r.head_sha s'.discussions ≡ true
  unfolding post_summary
  post_summary-there ds s s' h owned e =
      let fresh = next_of-NoSummary s.tracked h.fresh in
      let moved = ap (λ p. (state_of p).discussions) e in
      elim (Bool-cases (m.raises save_summary s.asked)) [
        | inl a ↦ ground (arith, e, a)
        | inr a ↦ elim (Bool-cases (has_summary c r.head_sha ds)) [
          | inl k ↦
              subst (λ x. has_summary c r.head_sha x ≡ true) (rw (a, fresh, k) at moved) (h.seen k)
          | inr k ↦ elim (Bool-cases (m.raises query_head s.asked)) [
            | inl b ↦ ground (arith, e, fresh, a, k, b)
            | inr b ↦ elim (Bool-cases (str_eq (m.head s.asked) r.head_sha)) [
              | inr l ↦ ground (arith, e, fresh, a, k, b, l)
              | inl l ↦ elim (Bool-cases (m.raises post_note s.asked)) [
                | inl n ↦ ground (arith, e, fresh, a, k, b, l, n)
                | inr n ↦ elim (Bool-cases (m.raises save_note s.asked)) [
                  | inl o ↦ ground (arith, e, fresh, a, k, b, l, n, o)
                  | inr o ↦
                      let body = text s ++ summary_marker r.head_sha in
                      subst (λ x. has_summary c r.head_sha x ≡ true)
                        (rw (a, fresh, k, b, l, n, o) at moved)
                        (has_summary-appended c r.head_sha s.discussions
                          (summary_note c body (m.new_id s.asked) ∷ [])
                          (summary_note-found c r.head_sha (text s) (m.new_id s.asked) owned))
                ]
              ]
            ]
          ]
        ]
      ]

  then_summary-there :
      (ds : List Discussion) (s' : Posting) (p : Progress)
      → BeforeSummary c r.head_sha ds (state_of p)
      → ((s : Posting)
          → owns_body c.owner_user_id (stamp c.owner_user_id (text s ++ summary_marker r.head_sha))
            ≡ true)
      → then_summary c m r text ds p ≡ going s'
      → has_summary c r.head_sha s'.discussions ≡ true
  unfolding then_summary
  then_summary-there ds s' (going s) h owned e = post_summary-there ds s s' h (owned s) e
  then_summary-there ds s' (raised s) h owned e = ground (arith, e)
  then_summary-there ds s' (stale s) h owned e = ground (arith, e)
  then_summary-there ds s' (no_file s) h owned e = ground (arith, e)

  -- Nothing is posted where the summary is among the discussions that were read.
  then_summary-skips :
      (ds : List Discussion) (p : Progress)
      → has_summary c r.head_sha ds ≡ true
      → (state_of (then_summary c m r text ds p)).discussions ≡ (state_of p).discussions
  unfolding post_summary then_summary
  then_summary-skips ds (going s) h = elim (Bool-cases (m.raises save_summary s.asked)) [
    | inl a ↦ rw a refl
    | inr a ↦ elim (Bool-cases (is_removed (next_of (has_key "summary") s.tracked))) [
      | inl k ↦ rw (a, k) refl
      | inr k ↦ rw (a, k, h) refl
    ]
  ]
  then_summary-skips ds (raised s) h = refl
  then_summary-skips ds (stale s) h = refl
  then_summary-skips ds (no_file s) h = refl

-- If a publication with no stored summary and with findings that have fingerprints goes through,
-- and the text of its summary has no marker of another owner, then a later publication for the
-- same head, which finds the discussions of the first and maybe others, posts what its loop over
-- the findings posts and no second summary.
pub publish-summary_once :
    (c : Client) (m m' : Remote) (r r' : Report) (text text' : Posting → Text)
    (ds more : List Discussion) (tracked tracked' : List Entry) (chosen chosen' : Selection)
    (s' : Posting)
    → All (λ f. IsFingerprint (codes f.fingerprint)) chosen.inline
    → All NoSummary tracked
    → ((s : Posting)
        → owns_body c.owner_user_id (stamp c.owner_user_id (text s ++ summary_marker r.head_sha))
          ≡ true)
    → r'.head_sha ≡ r.head_sha
    → publish c m r text ds tracked chosen ≡ going s'
    → let all_ds = s'.discussions ++ more in
      (state_of (publish c m' r' text' all_ds tracked' chosen')).discussions
      ≡ (state_of (publish_inline c m' r' all_ds tracked' chosen')).discussions
unfolding publish
publish-summary_once c m m' r r' text text' ds more tracked tracked' chosen chosen' s' fits k owned
      same e =
    let all_ds = s'.discussions ++ more in
    let first : BeforeSummary c r.head_sha ds (state_of (publish_inline c m r ds tracked chosen)) =
      publish_inline-keeps c m r ds tracked chosen (BeforeSummary c r.head_sha ds)
        (λ f. IsFingerprint (codes f.fingerprint))
        (outcome-BeforeSummary c m r r.head_sha ds (existing c ds)) fits
        (start-BeforeSummary c m r ds tracked chosen k) in
    let there =
      then_summary-there c m r text ds s' (publish_inline c m r ds tracked chosen) first owned e in
    then_summary-skips c m' r' text' all_ds (publish_inline c m' r' all_ds tracked' chosen') (
      subst (λ x. has_summary c x all_ds ≡ true) (sym same)
        (has_summary-append c r.head_sha s'.discussions more there))
