-- ===== src/Publish/Recheck/Replies.antt =====
-- What the replies of a recheck do to the threads (reviewer/publish/recheck.py).
use code_reviewer.Prelude.{
  ◌≡◌, refl, sym, ap, ◌∙◌, inl, inr, Bool, true, false, ◌&&◌, ◌||◌, List, [], ◌∷◌, ◌++◌, map, arith,
  ◌==◌, if◌then◌else◌, Bool-cases, any, select_if,
}
use code_reviewer.Publish.Posting.{Note, Discussion}
use code_reviewer.Publish.Recheck.{
  close_thread, note_of, is_resolving, Threads, ThreadVerdict, Reply, publish, publish_one, resolve,
  add_note,
}
use mathlib.Core.Path.{ap₂}
use mathlib.Core.List.{append_assoc, append-nil}

-- The answers to one discussion: what `publish` does to it, described by itself.
abbrev pub is_for : Discussion → ThreadVerdict → Bool
is_for d v = d.id == v.discussion_id

abbrev pub rechecked : Reply → List ThreadVerdict → Discussion → Discussion
rechecked r vs d = record d {
  resolved = d.resolved || any (λ v. is_for d v && is_resolving v.verdict) vs;
  notes = d.notes ++ map (note_of r) (select_if (is_for d) vs);
}

-- What one verdict does to a discussion.
abbrev answered_by : Reply → ThreadVerdict → Discussion → Discussion
answered_by r v d = record d {
  resolved = d.resolved || (is_for d v && is_resolving v.verdict);
  notes = d.notes ++ (if is_for d v then note_of r v ∷ [] else []);
}

or_false : (b : Bool) → b ≡ (b || false)
or_false b = ground arith

or_true : (b : Bool) → true ≡ (b || true)
or_true b = ground arith

rechecked-answered :
    (r : Reply) (v : ThreadVerdict) (vs : List ThreadVerdict) (d : Discussion)
    → rechecked r vs (answered_by r v d) ≡ rechecked r (v ∷ vs) d
rechecked-answered r v vs d =
    let later = any (λ w. is_for d w && is_resolving w.verdict) vs in
    let now = is_for d v && is_resolving v.verdict in
    let notes = map (note_of r) (select_if (is_for d) vs) in
    let first : List Note = if is_for d v then note_of r v ∷ [] else [] in
    let flags : ((d.resolved || now) || later) ≡ (d.resolved || (now || later)) = ground arith in
    let joined : first ++ notes ≡ map (note_of r) (select_if (is_for d) (v ∷ vs)) =
      elim (Bool-cases (is_for d v)) [ inl x ↦ rw x refl | inr x ↦ rw x refl ] in
    ap₂ (λ b ns. record d { resolved = b; notes = ns }) flags
      (append_assoc d.notes first notes ∙ ap (λ ns. d.notes ++ ns) joined)

noted-answered :
    (r : Reply) (v : ThreadVerdict) (d : Discussion)
    → is_resolving v.verdict ≡ false
    → add_note v.discussion_id (note_of r v) d ≡ answered_by r v d
noted-answered r v d x = elim (Bool-cases (d.id == v.discussion_id)) [
  | inl e ↦
      rw (e, x)
        (ap (λ b. record d { resolved = b; notes = d.notes ++ (note_of r v ∷ []) })
          (or_false d.resolved))
  | inr e ↦ rw e (
      ap₂ (λ b ns. record d { resolved = b; notes = ns }) (or_false d.resolved)
        (sym (append-nil d.notes)))
]

resolved-answered :
    (r : Reply) (v : ThreadVerdict) (d : Discussion)
    → is_resolving v.verdict ≡ true
    → resolve v.discussion_id (add_note v.discussion_id (note_of r v) d) ≡ answered_by r v d
resolved-answered r v d x = elim (Bool-cases (d.id == v.discussion_id)) [
  | inl e ↦
      rw (e, x, e)
        (ap (λ b. record d { resolved = b; notes = d.notes ++ (note_of r v ∷ []) })
          (or_true d.resolved))
  | inr e ↦
      rw (e, e)
        (ap₂ (λ b ns. record d { resolved = b; notes = ns }) (or_false d.resolved)
          (sym (append-nil d.notes)))
]

map-map {ℓ} : {A : Type ℓ} (f g : A → A) (xs : List A) → map f (map g xs) ≡ map (λ x. f (g x)) xs
map-map f g [] = refl
map-map f g (x ∷ xs) = ap (λ ys. f (g x) ∷ ys) (map-map f g xs)

map-agree {ℓ} :
    {A : Type ℓ} (f g : A → A) (xs : List A) → ((x : A) → f x ≡ g x) → map f xs ≡ map g xs
map-agree f g [] h = refl
map-agree f g (x ∷ xs) h = ap₂ (λ y ys. y ∷ ys) (h x) (map-agree f g xs h)

map-same {ℓ} : {A : Type ℓ} (f : A → A) (xs : List A) → ((x : A) → f x ≡ x) → map f xs ≡ xs
map-same f [] h = refl
map-same f (x ∷ xs) h = ap₂ (λ y ys. y ∷ ys) (h x) (map-same f xs h)

publish_one-discussions :
    (r : Reply) (v : ThreadVerdict) (t : Threads)
    → (publish_one false r v t).discussions ≡ map (answered_by r v) t.discussions
unfolding close_thread publish_one
publish_one-discussions r v t = elim (Bool-cases (is_resolving v.verdict)) [
  | inl x ↦ rw x (
      map-map (resolve v.discussion_id) (add_note v.discussion_id (note_of r v)) t.discussions
      ∙ map-agree (λ d. resolve v.discussion_id (add_note v.discussion_id (note_of r v) d))
          (answered_by r v) t.discussions (λ d. resolved-answered r v d x))
  | inr x ↦ rw x (
      map-agree (add_note v.discussion_id (note_of r v)) (answered_by r v) t.discussions
        (λ d. noted-answered r v d x))
]

-- Applied replies change each discussion by itself: it gets one note for each verdict on it, in
-- their order, and is resolved if it was or if one of them is fixed or obsolete.
pub publish-rechecked :
    (r : Reply) (vs : List ThreadVerdict) (t : Threads)
    → (publish false r vs t).discussions ≡ map (rechecked r vs) t.discussions
unfolding publish
publish-rechecked r [] t = sym (
    map-same (rechecked r []) t.discussions (λ d.
      ap₂ (λ b ns. record d { resolved = b; notes = ns }) (ground arith) (append-nil d.notes)))
publish-rechecked r (v ∷ vs) t =
    publish-rechecked r vs (publish_one false r v t)
    ∙ ap (map (rechecked r vs)) (publish_one-discussions r v t)
    ∙ map-map (rechecked r vs) (answered_by r v) t.discussions
    ∙ map-agree (λ d. rechecked r vs (answered_by r v d)) (rechecked r (v ∷ vs)) t.discussions
        (rechecked-answered r v vs)
