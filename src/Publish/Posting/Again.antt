-- ===== src/Publish/Posting/Again.antt =====
-- A comment that was posted is seen by the next publication (reviewer/publish/publisher.py).
use code_reviewer.Prelude.{
  ℕ, String, ◌≡◌, refl, sym, ap, ◌∙◌, inl, inr, true, Option, none, some, List, [], ◌∷◌, ◌++◌, map,
  arith, Bool-cases, length, any, next_of, All,
}
use code_reviewer.Prelude.Text.{Text, codes, text_eq, eq_of_str_eq}
use code_reviewer.Findings.Models.{Finding}
use code_reviewer.Publish.Posting.{
  has_key, saved_or, new_entry, remember, Entry, footer, comment_on, stamp, is_open, Report,
  Discussion, Client, render, existing, entries_of,
}
use code_reviewer.Publish.Markers.Laws.{IsFingerprint, fingerprints_in-marker}
use mathlib.Core.Path.{subst}
use mathlib.Core.List.{append_assoc, append-nil}
use code_reviewer.Publish.Markers.{closing, marker, owns_body, fingerprints_in}

-- A body that, once it is posted, is the client's own and has the marker of the finding.
pub record IsOurs (c : Client) (fp : String) (body : Text) : Type 0 where
  pub owned : owns_body c.owner_user_id (stamp c.owner_user_id body) ≡ true
  pub named : any (text_eq (codes fp)) (fingerprints_in (stamp c.owner_user_id body)) ≡ true

marker-named :
    (xs ys fp post : Text)
    → IsFingerprint fp
    → any (text_eq fp) (fingerprints_in ((xs ++ (ys ++ marker fp)) ++ post)) ≡ true
marker-named xs ys fp post h =
    let moved : (xs ++ (ys ++ marker fp)) ++ post ≡ (xs ++ ys) ++ (marker fp ++ post) =
      ap (λ u. u ++ post) (sym (append_assoc xs ys (marker fp)))
      ∙ append_assoc (xs ++ ys) (marker fp) post in
    rw moved (fingerprints_in-marker (xs ++ ys) fp post h)

-- A rendered comment has the marker of its finding.
pub render-fingerprint :
    (owner : Option Text) (r : Report) (f : Finding)
    → IsFingerprint (codes f.fingerprint)
    → any (text_eq (codes f.fingerprint)) (fingerprints_in (stamp owner (render r f))) ≡ true
render-fingerprint none r f h =
    rw (sym (append-nil (render r f))) (marker-named (r.table f) footer (codes f.fingerprint) [] h)
render-fingerprint (some owner) r f h =
    marker-named (r.table f) footer (codes f.fingerprint)
      (codes "\n\n<!-- ai-review:owner=" ++ (owner ++ closing)) h

pub existing-append :
    (c : Client) (ds es : List Discussion) → existing c (ds ++ es) ≡ existing c ds ++ existing c es
unfolding existing
existing-append c [] es = refl
existing-append c (d ∷ ds) es =
    ap (λ x. entries_of c d d.notes ++ x) (existing-append c ds es)
    ∙ sym (append_assoc (entries_of c d d.notes) (existing c ds) (existing c es))

is_open-map :
    (fp : Text) (d : Discussion) (fps : List Text)
    → is_open fp (map (λ x. (x, d)) fps) ≡ any (text_eq fp) fps
is_open-map fp d [] = refl
is_open-map fp d (x ∷ fps) = ground (arith, is_open-map fp d fps)

-- The discussion of a posted comment is among the existing ones.
pub comment_on-is_open :
    (c : Client) (fp file : String) (body : Text) (id : ℕ)
    → IsOurs c fp body
    → is_open (codes fp) (existing c (comment_on c file body id ∷ [])) ≡ true
unfolding existing entries_of
comment_on-is_open c fp file body id h =
    let d = comment_on c file body id in
    let fps = fingerprints_in (stamp c.owner_user_id body) in
    let hits : List (Text × Discussion) = map (λ x. (x, d)) fps in
    ground (
      arith,
      h.owned,
      h.named,
      append-nil (hits ++ []),
      append-nil hits,
      is_open-map (codes fp) d fps,
    )

-- A stored comment: the summary, one without a body, or a finding's with a body of ours.
pub data Saved (c : Client) (e : Entry) : Type 0 where
  of_summary : e.key ≡ "summary" → Saved c e
  no_body : e.body ≡ [] → Saved c e
  ours : IsOurs c e.key e.body → Saved c e

pick_lem :
    (c : Client) (fp : String) (body saved : Text)
    → IsOurs c fp body
    → IsOurs c fp saved
    → IsOurs c fp (elim saved [ [] ↦ body | x ∷ s ↦ x ∷ s ])
pick_lem c fp body [] h k = h
pick_lem c fp body (x ∷ s) h k = k

saved-IsOurs :
    (c : Client) (fp : String) (body : Text) (e : Entry)
    → IsFingerprint (codes fp)
    → IsOurs c fp body
    → e.key ≡ fp
    → Saved c e
    → IsOurs c fp (saved_or (some e) body)
saved-IsOurs c fp body e fits h same (of_summary k) =
    absurd (omega (arith, subst (λ x. length (codes x) ≡ 32) (sym same ∙ k) fits.long))
saved-IsOurs c fp body e fits h same (no_body k) = rw k h
saved-IsOurs c fp body e fits h same (ours k) =
    pick_lem c fp body e.body h (subst (λ x. IsOurs c x e.body) same k)

pub next_of-IsOurs :
    (c : Client) (fp : String) (body : Text) (es : List Entry)
    → IsFingerprint (codes fp)
    → IsOurs c fp body
    → All (Saved c) es
    → IsOurs c fp (saved_or (next_of (has_key fp) es) body)
next_of-IsOurs c fp body [] fits h k = h
next_of-IsOurs c fp body (e ∷ es) fits h k = elim (Bool-cases (has_key fp e)) [
  | inl x ↦ rw x (saved-IsOurs c fp body e fits h (eq_of_str_eq e.key fp x) k.0)
  | inr x ↦ rw x (next_of-IsOurs c fp body es fits h k.1)
]

-- What holds of the new entry and is kept by the change holds of all entries.
pub remember-All {κ} :
    (P : Entry → Type κ) (key : String) (body : Text) (change : Entry → Entry) (es : List Entry)
    → P (change (new_entry key body))
    → ((e : Entry) → P e → P (change e))
    → All P es
    → All P (remember key body change es)
unfolding remember
remember-All P key body change [] new step k = (new, tt)
remember-All P key body change (e ∷ es) new step k = elim (Bool-cases (has_key key e)) [
  | inl x ↦ rw x ((step e k.0, k.1))
  | inr x ↦ rw x ((k.0, remember-All P key body change es new step k.1))
]
