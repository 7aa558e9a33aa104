-- ===== src/Publish/Posting/Twice.antt =====
-- Two publications in a row (reviewer/publish/publisher.py).
use code_reviewer.Prelude.{
  ◌+◌, ◌≡◌, refl, sym, ap, ◌∙◌, inl, inr, true, false, List, [], ◌∷◌, ◌++◌, arith, Bool-cases, any,
  All, All-append, All-map, any-append,
}
use code_reviewer.Prelude.Text.{Text, codes, text_eq, str_eq, eq_of_str_eq}
use code_reviewer.Findings.Models.{Finding}
use code_reviewer.Publish.Posting.{as_published, reject, write}
use code_reviewer.Publish.Posting.Outcomes.{
  no_answer, not_posted, not_rejected, not_saved, MayWrite,
}
use code_reviewer.Publish.Posting.{
  publish_inline, new_entry, remember, comment_on, Entry, stamp, Progress, Report, Remote, Posting,
  Discussion, Client, render, existing, start, is_open,
}
use code_reviewer.Publish.Posting.Outcomes.{
  Outcome, left_out, counted, moved_on, lost, no_line, rejected, written, state_of,
  publish_inline-keeps, ready, body_of, publish_inline-keeps_always,
}
use mathlib.Core.Path.{subst}
use mathlib.Core.Bool.{false≢true}
use code_reviewer.Publish.Markers.Laws.{IsFingerprint}
use code_reviewer.Publish.Posting.Again.{
  no_body, of_summary, IsOurs, Saved, ours, existing-append, comment_on-is_open, next_of-IsOurs,
  remember-All, render-fingerprint,
}
use code_reviewer.Publish.Markers.{owns_body}
use code_reviewer.Findings.Selection.{Selection}

-- A finding with a fingerprint whose text holds no marker of another owner.
pub record Publishable (c : Client) (r : Report) (f : Finding) : Type 0 where
  pub fits : IsFingerprint (codes f.fingerprint)
  pub owned : owns_body c.owner_user_id (stamp c.owner_user_id (render r f)) ≡ true

render-IsOurs :
    (c : Client) (r : Report) (f : Finding)
    → Publishable c r f
    → IsOurs c f.fingerprint (render r f)
render-IsOurs c r f q = record {
  owned = q.owned;
  named = render-fingerprint c.owner_user_id r f q.fits;
}

-- What is posted stands among the discussions, and the stored comments can be posted.
record Tidy (c : Client) (s : Posting) : Type 0 where
  seen : All (λ f. is_open (codes f.fingerprint) (existing c s.discussions) ≡ true) s.posted
  stored : All (Saved c) s.tracked

is_open-later :
    (c : Client) (fp : Text) (ds es : List Discussion)
    → is_open fp (existing c ds) ≡ true
    → is_open fp (existing c (ds ++ es)) ≡ true
is_open-later c fp ds es h = ground (
  arith,
  h,
  existing-append c ds es,
  any-append (λ e. text_eq fp e.0) (existing c ds) (existing c es),
)

is_open-last :
    (c : Client) (fp : Text) (ds es : List Discussion)
    → is_open fp (existing c es) ≡ true
    → is_open fp (existing c (ds ++ es)) ≡ true
is_open-last c fp ds es h = ground (
  arith,
  h,
  existing-append c ds es,
  any-append (λ e. text_eq fp e.0) (existing c ds) (existing c es),
)

-- A change of a stored comment that keeps its key and its body.
change-Saved : (c : Client) (e f : Entry) → f.key ≡ e.key → f.body ≡ e.body → Saved c e → Saved c f
change-Saved c e f k b (of_summary h) = of_summary (k ∙ h)
change-Saved c e f k b (no_body h) = no_body (b ∙ h)
change-Saved c e f k b (ours h) =
    ours (subst (λ x. IsOurs c x f.body) (sym k) (subst (λ x. IsOurs c e.key x) (sym b) h))

module _ (c : Client) (r : Report) (f : Finding) (s : Posting) where
  body_of-IsOurs :
      Publishable c r f → All (Saved c) s.tracked → IsOurs c f.fingerprint (body_of r f s)
  body_of-IsOurs q h =
      next_of-IsOurs c f.fingerprint (render r f) s.tracked q.fits (render-IsOurs c r f q) h

  body-Saved : Publishable c r f → All (Saved c) s.tracked → All (Saved c) (ready r f s).tracked
  body-Saved q h =
      let body = body_of r f s in
      remember-All (Saved c) f.fingerprint body (λ e. e) s.tracked (ours (body_of-IsOurs q h))
        (λ e k. k) h

  recorded-Saved :
      (change : Entry → Entry)
      → ((e : Entry) → Saved c e → Saved c (change e))
      → Publishable c r f
      → All (Saved c) s.tracked
      → All (Saved c) (remember f.fingerprint (body_of r f s) change (ready r f s).tracked)
  recorded-Saved change step q h =
      let body = body_of r f s in
      let new : Saved c (new_entry f.fingerprint body) = ours (body_of-IsOurs q h) in
      remember-All (Saved c) f.fingerprint body change (ready r f s).tracked
        (step (new_entry f.fingerprint body) new) step (body-Saved q h)

module _ (c : Client) (m : Remote) (r : Report) (before : List (Text × Discussion)) where
  reject-Tidy :
      (f : Finding) (s : Posting)
      → Publishable c r f
      → Tidy c s
      → Tidy c (reject c m r f (body_of r f s) (ready r f s))
  reject-Tidy f s q h = record {
    seen = h.seen;
    stored =
        recorded-Saved c r f s (λ e. record e { eligible = false })
          (λ e k. change-Saved c e (record e { eligible = false }) refl refl k) q h.stored;
  }

  write-Tidy :
      (f : Finding) (s : Posting)
      → Publishable c r f
      → Tidy c s
      → Tidy c (write c m r f (body_of r f s) (ready r f s))
  write-Tidy f s q h =
      let d = comment_on c f.anchor.file (body_of r f s) (m.new_id (s.asked + 1)) ∷ [] in
      let now : is_open (codes f.fingerprint) (existing c d) ≡ true =
        comment_on-is_open c f.fingerprint f.anchor.file (body_of r f s) (m.new_id (s.asked + 1))
          (body_of-IsOurs c r f s q h.stored) in
      record {
        seen =
            All-append (λ g. is_open (codes g.fingerprint) (existing c (s.discussions ++ d)) ≡ true)
              s.posted (as_published f ∷ [])
              (All-map (λ g. is_open (codes g.fingerprint) (existing c s.discussions) ≡ true)
                (λ g. is_open (codes g.fingerprint) (existing c (s.discussions ++ d)) ≡ true)
                s.posted (λ g k. is_open-later c (codes g.fingerprint) s.discussions d k) h.seen)
              (is_open-last c (codes f.fingerprint) s.discussions d now, tt);
        stored =
            recorded-Saved c r f s (λ e. record e { committed = true })
              (λ e k. change-Saved c e (record e { committed = true }) refl refl k) q h.stored;
      }

  outcome-Tidy :
      (f : Finding) (s : Posting) (p : Progress)
      → Publishable c r f
      → Tidy c s
      → Outcome c m r before f s p
      → Tidy c (state_of p)
  outcome-Tidy f s p q h (left_out e) = h
  outcome-Tidy f s p q h counted = record { seen = h.seen; stored = h.stored }
  outcome-Tidy f s p q h (moved_on g) = record { seen = h.seen; stored = h.stored }
  outcome-Tidy f s p q h (lost e) = record { seen = h.seen; stored = h.stored }
  outcome-Tidy f s p q h no_line = record { seen = h.seen; stored = h.stored }
  outcome-Tidy f s p q h rejected = reject-Tidy f s q h
  outcome-Tidy f s p q h (written w) = write-Tidy f s q h
  outcome-Tidy f s p q h (no_answer e) = record { seen = h.seen; stored = h.stored }
  outcome-Tidy f s p q h (not_posted e) = record {
    seen = h.seen;
    stored = body-Saved c r f s q h.stored;
  }
  outcome-Tidy f s p q h (not_rejected e) = reject-Tidy f s q h
  outcome-Tidy f s p q h (not_saved w e) = write-Tidy f s q h

  write-fresh :
      (f : Finding) (s : Posting)
      → MayWrite c m r before f s
      → All (λ g. is_open (codes g.fingerprint) before ≡ false) s.posted
      → All (λ g. is_open (codes g.fingerprint) before ≡ false) (s.posted ++ (as_published f ∷ []))
  write-fresh f s w h =
      All-append (λ g. is_open (codes g.fingerprint) before ≡ false) s.posted (as_published f ∷ [])
        h (w.fresh, tt)

  outcome-fresh :
      (f : Finding) (s : Posting) (p : Progress)
      → All (λ g. is_open (codes g.fingerprint) before ≡ false) s.posted
      → Outcome c m r before f s p
      → All (λ g. is_open (codes g.fingerprint) before ≡ false) (state_of p).posted
  outcome-fresh f s p h (left_out e) = h
  outcome-fresh f s p h counted = h
  outcome-fresh f s p h (moved_on g) = h
  outcome-fresh f s p h (lost e) = h
  outcome-fresh f s p h no_line = h
  outcome-fresh f s p h rejected = h
  outcome-fresh f s p h (written w) = write-fresh f s w h
  outcome-fresh f s p h (no_answer e) = h
  outcome-fresh f s p h (not_posted e) = h
  outcome-fresh f s p h (not_rejected e) = h
  outcome-fresh f s p h (not_saved w e) = write-fresh f s w h

start-Tidy :
    (c : Client) (m : Remote) (r : Report) (ds : List Discussion) (tracked : List Entry)
    (chosen : Selection)
    → All (Saved c) tracked
    → Tidy c (start c m r ds tracked chosen)
unfolding start
start-Tidy c m r ds tracked chosen h = record { seen = tt; stored = h }

start-fresh :
    (c : Client) (m : Remote) (r : Report) (ds : List Discussion) (tracked : List Entry)
    (chosen : Selection) (before : List (Text × Discussion))
    → All (λ g. is_open (codes g.fingerprint) before ≡ false) (start c m r ds tracked chosen).posted
unfolding start
start-fresh c m r ds tracked chosen before = tt

-- What posted shows that it was open is not posted.
apart_lem :
    (before : List (Text × Discussion)) (f : Finding) (gs : List Finding)
    → is_open (codes f.fingerprint) before ≡ true
    → All (λ g. is_open (codes g.fingerprint) before ≡ false) gs
    → any (λ g. str_eq g.fingerprint f.fingerprint) gs ≡ false
apart_lem before f [] h k = refl
apart_lem before f (g ∷ gs) h k = elim (Bool-cases (str_eq g.fingerprint f.fingerprint)) [
  | inl e ↦ absurd (
      false≢true (
        sym k.0
        ∙ (ap (λ x. is_open (codes x) before) (eq_of_str_eq g.fingerprint f.fingerprint e) ∙ h)))
  | inr e ↦ rw e (apart_lem before f gs h k.1)
]

-- If the inline findings have fingerprints and their rendered texts hold no marker of another
-- owner, and the stored comments have no body or a body that passes for their own, then a later
-- publication, which finds the discussions of the first and maybe others, posts no finding with
-- the fingerprint of one that the first posted.
pub publish_again :
    (c : Client) (m m' : Remote) (r r' : Report) (ds more : List Discussion)
    (tracked tracked' : List Entry) (chosen chosen' : Selection)
    → All (Publishable c r) chosen.inline
    → All (Saved c) tracked
    → let first = state_of (publish_inline c m r ds tracked chosen) in
      let second = state_of (publish_inline c m' r' (first.discussions ++ more) tracked' chosen') in
      All (λ f. any (λ g. str_eq g.fingerprint f.fingerprint) second.posted ≡ false) first.posted
publish_again c m m' r r' ds more tracked tracked' chosen chosen' q h =
    let first = state_of (publish_inline c m r ds tracked chosen) in
    let all_ds = first.discussions ++ more in
    let before = existing c all_ds in
    let second = state_of (publish_inline c m' r' all_ds tracked' chosen') in
    let tidy : Tidy c first =
      publish_inline-keeps c m r ds tracked chosen (Tidy c) (Publishable c r)
        (outcome-Tidy c m r (existing c ds)) q (start-Tidy c m r ds tracked chosen h) in
    let fresh : All (λ g. is_open (codes g.fingerprint) before ≡ false) second.posted =
      publish_inline-keeps_always c m' r' all_ds tracked' chosen'
        (λ s. All (λ g. is_open (codes g.fingerprint) before ≡ false) s.posted)
        (outcome-fresh c m' r' before) (start-fresh c m' r' all_ds tracked' chosen' before) in
    All-map (λ f. is_open (codes f.fingerprint) (existing c first.discussions) ≡ true)
      (λ f. any (λ g. str_eq g.fingerprint f.fingerprint) second.posted ≡ false) first.posted
      (λ f k.
        apart_lem before f second.posted
          (is_open-later c (codes f.fingerprint) first.discussions more k) fresh)
      tidy.seen
