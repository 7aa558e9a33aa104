-- ===== src/Publish/Posting/Outcomes.antt =====
-- What one pass of the publication's loop can do (reviewer/publish/publisher.py).
use code_reviewer.Prelude.{
  ◌+◌, ◌≡◌, refl, inl, inr, true, false, ◌||◌, Option, none, some, List, [], ◌∷◌, leb, ◌==◌,
  Bool-cases, next_of, All,
}
use code_reviewer.Prelude.Text.{Text, codes, str_eq}
use code_reviewer.Findings.Models.{Finding}
use code_reviewer.Context.Diff.{DiffFile, Line}
use code_reviewer.Publish.Posting.{
  query_head, read_discussions, save_body, post_comment, save_comment, raised,
}
use code_reviewer.Publish.Posting.{
  Entry, start, publish_inline, existing, post_all, write, no_file, stale, post_one, line_at,
  is_open, going, has_key, Discussion, saved_or, Remote, remember, Report, Progress, Posting,
  Client, is_removed, render, reject, post_at, post_in,
}
use code_reviewer.Findings.Selection.{Selection, count_of, add_one}

all_Unit : (fs : List Finding) → All (λ f. Unit {0}) fs
all_Unit [] = tt
all_Unit (f ∷ fs) = (tt, all_Unit fs)

abbrev pub state_of : Progress → Posting
state_of (going s) = s
state_of (stale s) = s
state_of (raised s) = s
state_of (no_file s) = s

-- The body that the loop writes for a finding.
abbrev pub body_of : Report → Finding → Posting → Text
body_of r f s = saved_or (next_of (has_key f.fingerprint) s.tracked) (render r f)

-- The state behind a query.
abbrev pub after_query : Posting → Posting
after_query s = record s { asked = s.asked + 1 }

-- The state in which a comment is written: its body is stored.
abbrev pub ready : Report → Finding → Posting → Posting
ready r f s = record s {
  asked = s.asked + 1;
  tracked = remember f.fingerprint (body_of r f s) (λ e. e) s.tracked;
}

module _ (c : Client) (m : Remote) (r : Report) (before : List (Text × Discussion))
    (f : Finding) where
  -- The conditions under which the loop writes the comment of a finding.
  pub record MayWrite (s : Posting) : Type 0 where
    pub kept : is_removed (next_of (has_key f.fingerprint) s.tracked) ≡ false
    pub fresh : is_open (codes f.fingerprint) before ≡ false
    pub slot_left : (s.slots == 0) ≡ false
    pub file_left : leb r.max_per_file (count_of f.anchor.file s.per_file) ≡ false
    pub head_stays : str_eq (m.head s.asked) r.head_sha ≡ true

  pub data Outcome (s : Posting) : Progress → Type 0 where
    left_out :
        (is_removed (next_of (has_key f.fingerprint) s.tracked)
            || is_open (codes f.fingerprint) before)
          ≡ true
        → Outcome s (going s)
    counted : Outcome s (going (record s { overflow = add_one f.category s.overflow }))
    moved_on : str_eq (m.head s.asked) r.head_sha ≡ false → Outcome s (stale (after_query s))
    lost :
        next_of (λ x. str_eq x.path f.anchor.file) r.files ≡ none
        → Outcome s (no_file (after_query s))
    no_line : Outcome s (post_at c m r f none (after_query s))
    rejected : Outcome s (going (reject c m r f (body_of r f s) (ready r f s)))
    written : MayWrite s → Outcome s (going (write c m r f (body_of r f s) (ready r f s)))
    no_answer : m.raises query_head s.asked ≡ true → Outcome s (raised (after_query s))
    not_posted :
        (m.raises save_body (s.asked + 1) || m.raises post_comment (s.asked + 1)) ≡ true
        → Outcome s (raised (ready r f s))
    not_rejected :
        m.raises save_comment (s.asked + 1) ≡ true
        → Outcome s (raised (reject c m r f (body_of r f s) (ready r f s)))
    not_saved :
        MayWrite s
        → m.raises save_comment (s.asked + 1) ≡ true
        → Outcome s (raised (write c m r f (body_of r f s) (ready r f s)))

  post_at-outcome :
      (s : Posting) → MayWrite s → (l : Option Line) → Outcome s (post_at c m r f l (after_query s))
  post_at-outcome s h none = no_line
  post_at-outcome s h (some l) =
      elim (Bool-cases (m.raises save_body (s.asked + 1) || m.raises post_comment (s.asked + 1))) [
        | inl a ↦ rw a (not_posted a)
        | inr a ↦ elim (Bool-cases (m.raises save_comment (s.asked + 1))) [
          | inl b ↦ elim (Bool-cases (m.can_place f)) [
            | inl e ↦ rw (a, b, e) (not_saved h b)
            | inr e ↦ rw (a, b, e) (not_rejected b)
          ]
          | inr b ↦ elim (Bool-cases (m.can_place f)) [
            | inl e ↦ rw (a, b, e) (written h)
            | inr e ↦ rw (a, b, e) rejected
          ]
        ]
      ]

  post_in-outcome :
      (s : Posting)
      → MayWrite s
      → (file : Option DiffFile) → next_of (λ x. str_eq x.path f.anchor.file) r.files ≡ file
      → Outcome s (post_in c m r f file (after_query s))
  post_in-outcome s h none e = lost e
  post_in-outcome s h (some file) e = post_at-outcome s h (line_at file f.anchor.line_start)

  may_write-outcome :
      (s : Posting)
      → is_removed (next_of (has_key f.fingerprint) s.tracked) ≡ false
      → is_open (codes f.fingerprint) before ≡ false
      → Outcome s (post_one c m r before f s)
  unfolding post_one
  may_write-outcome s a b = elim (Bool-cases (s.slots == 0)) [
    | inl d ↦ rw (a, b, d) counted
    | inr d ↦ elim (Bool-cases (leb r.max_per_file (count_of f.anchor.file s.per_file))) [
      | inl e ↦ rw (a, b, d, e) counted
      | inr e ↦ elim (Bool-cases (m.raises query_head s.asked)) [
        | inl q ↦ rw (a, b, d, e, q) (no_answer q)
        | inr q ↦ elim (Bool-cases (str_eq (m.head s.asked) r.head_sha)) [
          | inl g ↦
              let h : MayWrite s = record {
                kept = a;
                fresh = b;
                slot_left = d;
                file_left = e;
                head_stays = g;
              } in
              rw (a, b, d, e, q, g)
                (post_in-outcome s h (next_of (λ x. str_eq x.path f.anchor.file) r.files) refl)
          | inr g ↦ rw (a, b, d, e, q, g) (moved_on g)
        ]
      ]
    ]
  ]

  pub post_one-outcome : (s : Posting) → Outcome s (post_one c m r before f s)
  unfolding post_one
  post_one-outcome s = elim (Bool-cases (is_removed (next_of (has_key f.fingerprint) s.tracked))) [
    | inl a ↦ rw a (left_out (rw a refl))
    | inr a ↦ elim (Bool-cases (is_open (codes f.fingerprint) before)) [
      | inl b ↦ rw (a, b) (left_out (rw (a, b) refl))
      | inr b ↦ may_write-outcome s a b
    ]
  ]

module _ (c : Client) (m : Remote) (r : Report) (before : List (Text × Discussion)) where
  after_pass {κ} :
      (P : Posting → Type κ) (fs : List Finding) (p : Progress)
      → P (state_of p)
      → ((t : Posting) → P t → P (state_of (post_all c m r before fs t)))
      → P (
          state_of (elim p [
            | going t ↦ post_all c m r before fs t
            | stale t ↦ stale t
            | raised t ↦ raised t
            | no_file t ↦ no_file t
          ]))
  after_pass P fs (going t) k rest = rest t k
  after_pass P fs (stale t) k rest = k
  after_pass P fs (raised t) k rest = k
  after_pass P fs (no_file t) k rest = k

  -- A property of states that every pass keeps holds at the end of the loop, however it ends.
  pub post_all-keeps {κ μ} :
      (P : Posting → Type κ) (Q : Finding → Type μ)
      → ((f : Finding) (s : Posting) (p : Progress)
          → Q f
          → P s
          → Outcome c m r before f s p
          → P (state_of p))
      → (fs : List Finding) (s : Posting) → All Q fs
      → P s
      → P (state_of (post_all c m r before fs s))
  unfolding post_all
  post_all-keeps P Q step [] s qs h = h
  post_all-keeps P Q step (f ∷ fs) s qs h =
      after_pass P fs (post_one c m r before f s)
        (step f s (post_one c m r before f s) qs.0 h (post_one-outcome c m r before f s))
        (λ t k. post_all-keeps P Q step fs t qs.1 k)

module _ (c : Client) (m : Remote) (r : Report) (ds : List Discussion) (tracked : List Entry)
    (chosen : Selection) where
  -- A property that every pass keeps holds at the end of a publication.
  pub publish_inline-keeps {κ μ} :
      (P : Posting → Type κ) (Q : Finding → Type μ)
      → ((f : Finding) (s : Posting) (p : Progress)
          → Q f
          → P s
          → Outcome c m r (existing c ds) f s p
          → P (state_of p))
      → All Q chosen.inline
      → P (start c m r ds tracked chosen)
      → P (state_of (publish_inline c m r ds tracked chosen))
  unfolding publish_inline
  publish_inline-keeps P Q step qs h = elim (Bool-cases (m.raises query_head 0)) [
    | inl a ↦ rw a h
    | inr a ↦ elim (Bool-cases (str_eq (m.head 0) r.head_sha)) [
      | inr e ↦ rw (a, e) h
      | inl e ↦ elim (Bool-cases (m.raises read_discussions 0)) [
        | inl b ↦ rw (a, e, b) h
        | inr b ↦
            rw (a, e, b)
              (post_all-keeps c m r (existing c ds) P Q step chosen.inline
                (start c m r ds tracked chosen) qs h)
      ]
    ]
  ]

  pub publish_inline-keeps_always {κ} :
      (P : Posting → Type κ)
      → ((f : Finding) (s : Posting) (p : Progress)
          → P s
          → Outcome c m r (existing c ds) f s p
          → P (state_of p))
      → P (start c m r ds tracked chosen)
      → P (state_of (publish_inline c m r ds tracked chosen))
  publish_inline-keeps_always P step h =
      publish_inline-keeps P (λ f. Unit {0}) (λ f s p u. step f s p) (all_Unit chosen.inline) h
