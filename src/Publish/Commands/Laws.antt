-- ===== src/Publish/Commands/Laws.antt =====
-- A command that is delivered twice (reviewer/publish/commands.py).
use code_reviewer.Prelude.{
  ℕ, ◌≡◌, refl, ap, ◌∙◌, inl, inr, Bool, false, not, ◌&&◌, Option, none, some, List, [], ◌∷◌, map,
  arith, ltb, ◌==◌, Bool-cases, next_of, All, All-append, eq_of_some,
}
use code_reviewer.Prelude.Text.{Text, text_eq}
use code_reviewer.Findings.Models.{Finding}
use code_reviewer.Publish.Posting.{Client, Discussion, Note, existing, entries_of}
use code_reviewer.Publish.Recheck.{resolve}
use code_reviewer.Publish.Commands.{
  dismiss, parse, put_key, to_dict, Desk, Setting, CommandNote, is_target, key_for, dismissed,
  for_finding, for_key, for_target, obey, command,
}
use code_reviewer.Publish.Markers.{fingerprints_in, owns_body}

all_of {κ} :
    (d : Discussion) (P : Discussion → Type κ)
    → P d
    → (fps : List Text) → All (λ (e : Text × Discussion). P e.1) (map (λ fp. (fp, d)) fps)
all_of d P h [] = tt
all_of d P h (fp ∷ fps) = (h, all_of d P h fps)

-- Every entry of the dict of open comments is of a discussion that is not resolved.
entries_of-All {κ} :
    (c : Client) (d : Discussion) (ns : List Note) (P : Discussion → Type κ)
    → (d.resolved ≡ false → P d)
    → All (λ e. P e.1) (entries_of c d ns)
unfolding entries_of
entries_of-All c d [] P h = tt
entries_of-All c d (n ∷ ns) P h =
    let rest = entries_of-All c d ns P h in
    elim (Bool-cases
      (n.author_id == c.bot && (not d.resolved && owns_body c.owner_user_id n.body))) [
        | inl x ↦ rw x (
            All-append (λ e. P e.1) (map (λ fp. (fp, d)) (fingerprints_in n.body))
              (entries_of c d ns) (all_of d P (h (ground (arith, x))) (fingerprints_in n.body))
              rest)
        | inr x ↦ rw x rest
      ]

existing-All {κ} :
    (c : Client) (ds : List Discussion) (P : Discussion → Type κ)
    → All (λ d. d.resolved ≡ false → P d) ds
    → All (λ e. P e.1) (existing c ds)
unfolding existing
existing-All c [] P h = tt
existing-All c (d ∷ ds) P h =
    All-append (λ e. P e.1) (entries_of c d d.notes) (existing c ds)
      (entries_of-All c d d.notes P h.0) (existing-All c ds P h.1)

put_key-All {κ} :
    (P : Discussion → Type κ) (fp : Text) (d : Discussion) (items : List (Text × Discussion))
    → P d
    → All (λ e. P e.1) items
    → All (λ e. P e.1) (put_key fp d items)
unfolding put_key
put_key-All P fp d [] h k = (h, tt)
put_key-All P fp d ((key, e) ∷ items) h k = elim (Bool-cases (text_eq key fp)) [
  | inl x ↦ rw x ((h, k.1))
  | inr x ↦ rw x ((k.0, put_key-All P fp d items h k.1))
]

to_dict-All {κ} :
    (P : Discussion → Type κ) (items entries : List (Text × Discussion))
    → All (λ e. P e.1) items
    → All (λ e. P e.1) entries
    → All (λ e. P e.1) (to_dict items entries)
unfolding to_dict
to_dict-All P items [] h k = h
to_dict-All P items ((fp, d) ∷ entries) h k =
    to_dict-All P (put_key fp d items) entries (put_key-All P fp d items k.0 h) k.1

next_of-none {ℓ} :
    {A : Type ℓ} (p : A → Bool) (xs : List A) → All (λ x. p x ≡ false) xs → next_of p xs ≡ none
next_of-none p [] h = refl
next_of-none p (x ∷ xs) h = rw h.0 (next_of-none p xs h.1)

resolved_lem :
    (id : ℕ) (ds : List Discussion)
    → All (λ d. d.resolved ≡ false → (d.id == id) ≡ false) (map (resolve id) ds)
resolved_lem id [] = tt
resolved_lem id (d ∷ ds) = (
  elim (Bool-cases (d.id == id)) [
    | inl x ↦ rw (x, x) (λ h. absurd (ground (arith, h)))
    | inr x ↦ rw (x, x) (λ h. refl)
  ],
  resolved_lem id ds,
)

key_for-resolved :
    (c : Client) (id : ℕ) (ds : List Discussion)
    → key_for id (to_dict [] (existing c (map (resolve id) ds))) ≡ none
key_for-resolved c id ds =
    let P : Discussion → Type 0 = λ d. (d.id == id) ≡ false in
    let entries = existing c (map (resolve id) ds) in
    next_of-none (λ e. e.1.id == id) (to_dict [] entries)
      (to_dict-All P [] entries tt (existing-All c (map (resolve id) ds) P (resolved_lem id ds)))

resolve-id : (id : ℕ) (d : Discussion) → (resolve id d).id ≡ d.id
resolve-id id d = elim (Bool-cases (d.id == id)) [ inl x ↦ rw x refl | inr x ↦ rw x refl ]

is_target-resolve :
    (o : CommandNote) (id : ℕ) (d : Discussion) → is_target o (resolve id d) ≡ is_target o d
is_target-resolve o id d = elim (Bool-cases (d.id == id)) [ inl x ↦ rw x refl | inr x ↦ rw x refl ]

target_resolved :
    (o : CommandNote) (id : ℕ) (ds : List Discussion) (d : Discussion)
    → next_of (is_target o) ds ≡ some d
    → next_of (is_target o) (map (resolve id) ds) ≡ some (resolve id d)
target_resolved o id [] d h = absurd (ground (arith, h))
target_resolved o id (e ∷ ds) d h = elim (Bool-cases (is_target o e)) [
  | inl x ↦
      let same : e ≡ d = eq_of_some e d (rw x at h) in
      rw (is_target-resolve o id e, x) (ap (λ y. some (resolve id y)) same)
  | inr x ↦ rw (is_target-resolve o id e, x) (target_resolved o id ds d (rw x at h))
]

module _ (p : Setting) (o : CommandNote) (reason : Text) where
  -- What a dismissal leaves.
  abbrev after : Option Discussion → Desk → Desk
  after t desk = (for_target p o dismiss (some reason) t desk).0

  abbrev keyed : Option (Text × Discussion) → ℕ → Desk → Desk
  keyed k id desk = (for_key p o dismiss (some reason) id k desk).0

  dismissed_twice :
      (fp : Text) (d : Discussion) (desk : Desk)
      → next_of (is_target o) desk.discussions ≡ some d
      → let once = dismissed p o fp d.id reason desk in
        after (next_of (is_target o) once.discussions) once ≡ once
  unfolding dismissed for_target for_key
  dismissed_twice fp d desk t =
      let once = dismissed p o fp d.id reason desk in
      let items = to_dict [] (existing p.client (map (resolve d.id) desk.discussions)) in
      ap (λ x. after x once) (target_resolved o d.id desk.discussions d t)
      ∙ ap (λ i. keyed (key_for i items) i once) (resolve-id d.id d)
      ∙ ap (λ k. keyed k d.id once) (key_for-resolved p.client d.id desk.discussions)

  found_twice :
      (fp : Text) (f : Option Finding) (d : Discussion) (desk : Desk)
      → next_of (is_target o) desk.discussions ≡ some d
      → after (next_of (is_target o) desk.discussions) desk
        ≡ (for_finding p o dismiss (some reason) fp d.id f desk).0
      → let once = (for_finding p o dismiss (some reason) fp d.id f desk).0 in
        after (next_of (is_target o) once.discussions) once ≡ once
  found_twice fp none d desk t e = e
  found_twice fp (some f) d desk t e = dismissed_twice fp d desk t

  keyed_twice :
      (k : Option (Text × Discussion)) (d : Discussion) (desk : Desk)
      → next_of (is_target o) desk.discussions ≡ some d
      → after (next_of (is_target o) desk.discussions) desk ≡ keyed k d.id desk
      → let once = keyed k d.id desk in after (next_of (is_target o) once.discussions) once ≡ once
  unfolding for_key
  keyed_twice none d desk t e = e
  keyed_twice (some (fp, x)) d desk t e = found_twice fp (p.find fp) d desk t e

  target_twice :
      (t : Option Discussion) (desk : Desk)
      → next_of (is_target o) desk.discussions ≡ t
      → let once = after t desk in after (next_of (is_target o) once.discussions) once ≡ once
  unfolding for_target
  target_twice none desk e = ap (λ x. after x desk) e
  target_twice (some d) desk e =
      keyed_twice (key_for d.id (to_dict [] (existing p.client desk.discussions))) d desk e
        (ap (λ x. after x desk) e)

  -- A dismissal with a reason that is delivered again changes nothing, whatever the first delivery
  -- was answered.
  pub command-dismiss_twice :
      (desk : Desk)
      → parse p.unicode o.text ≡ some (dismiss, some reason)
      → (command p o (command p o desk).0).0 ≡ (command p o desk).0
  unfolding command obey
  command-dismiss_twice desk h = elim (Bool-cases (ltb (p.role o.user) 30)) [
    | inl x ↦ rw x refl
    | inr x ↦ rw (x, h) (target_twice (next_of (is_target o) desk.discussions) desk refl)
  ]
