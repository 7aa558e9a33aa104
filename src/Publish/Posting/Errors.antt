-- ===== src/Publish/Posting/Errors.antt =====
-- How a publication ends (reviewer/publish/publisher.py).
use code_reviewer.Prelude.{
  ℕ, suc, ◌+◌, String, ◌≡◌, refl, ap, ◌∙◌, inl, inr, Bool, true, false, ◌||◌, none, some, List, [],
  ◌∷◌, ◌++◌, arith, ltb, Bool-cases, any, next_of, All, get_elem?, All-map, any-append,
}
use code_reviewer.Prelude.Text.{Text, codes, str_eq, str_eq_refl}
use code_reviewer.Publish.Posting.{
  as_published, start, post_one, publish_inline, post_all, query_head, read_discussions, save_body,
  post_comment, save_comment, raised, going, stale, no_file, write, reject,
}
use code_reviewer.Publish.Posting.Outcomes.{
  Outcome, left_out, counted, no_line, rejected, written, moved_on, lost, no_answer, not_posted,
  not_rejected, not_saved, state_of, ready, body_of, post_one-outcome,
}
use mathlib.Core.Path.{subst}
use code_reviewer.Publish.Posting.{
  Call, no_file, stale, going, write, reject, Progress, Report, Remote, Client, has_key, is_removed,
  is_open, remember, new_entry,
}
use code_reviewer.Findings.Selection.{Selection, count_of}
use code_reviewer.Publish.Posting.{existing}
use code_reviewer.Findings.Models.{Finding}
use code_reviewer.Publish.Posting.{Entry, Discussion, Posting}
use code_reviewer.Publish.Posting.Outcomes.{body_of, ready}
use code_reviewer.Findings.Selection.Limits.{count_of-add_one}

-- A list has a finding with the same fingerprint.
abbrev pub has_finding : Finding → List Finding → Bool
has_finding f fs = any (λ g. str_eq g.fingerprint f.fingerprint) fs

-- What became of a finding: its stored comment was removed before, it had an open comment, its comment
-- was posted, it is in the summary, or it is counted in the overflow of its category.
abbrev pub is_handled : List Entry → List (Text × Discussion) → Posting → Finding → Bool
is_handled tracked before s f =
    is_removed (next_of (has_key f.fingerprint) tracked)
    || (is_open (codes f.fingerprint) before
        || (has_finding f s.posted
            || (has_finding f s.summarized || ltb 0 (count_of f.category s.overflow))))

-- Writing what becomes of a comment removes none.
is_removed-remember :
    (key other : String) (body : Text) (change : Entry → Entry) (es : List Entry)
    → ((e : Entry) → (change e).key ≡ e.key)
    → ((e : Entry) → (change e).removed ≡ e.removed)
    → is_removed (next_of (has_key other) (remember key body change es))
      ≡ is_removed (next_of (has_key other) es)
unfolding remember
is_removed-remember key other body change [] same kept = elim (Bool-cases (str_eq key other)) [
  | inl x ↦ rw (same (new_entry key body), x) (kept (new_entry key body))
  | inr x ↦ rw (same (new_entry key body), x) refl
]
is_removed-remember key other body change (e ∷ es) same kept =
    let rest = is_removed-remember key other body change es same kept in
    elim (Bool-cases (has_key key e)) [
      | inl x ↦ elim (Bool-cases (str_eq e.key other)) [
        | inl y ↦ rw (x, same e, y) (kept e)
        | inr y ↦ rw (x, same e, y) refl
      ]
      | inr x ↦ elim (Bool-cases (str_eq e.key other)) [
        | inl y ↦ rw (x, y) refl
        | inr y ↦ rw (x, y) rest
      ]
    ]

module _ (c : Client) (m : Remote) (r : Report) (tracked : List Entry)
    (before : List (Text × Discussion)) where
  -- The publication so far has removed no stored comment and restored none.
  abbrev Kept : Posting → Type 0
  Kept s =
      (key : String)
      → is_removed (next_of (has_key key) s.tracked) ≡ is_removed (next_of (has_key key) tracked)

  body-Kept : (f : Finding) (s : Posting) → Kept s → Kept (ready r f s)
  body-Kept f s h = λ key.
      is_removed-remember f.fingerprint key (body_of r f s) (λ e. e) s.tracked (λ e. refl)
        (λ e. refl)
      ∙ h key

  reject-Kept :
      (f : Finding) (s : Posting) → Kept s → Kept (reject c m r f (body_of r f s) (ready r f s))
  reject-Kept f s h = λ key.
      is_removed-remember f.fingerprint key (body_of r f s) (λ e. record e { eligible = false })
        (ready r f s).tracked (λ e. refl) (λ e. refl)
      ∙ body-Kept f s h key

  write-Kept :
      (f : Finding) (s : Posting) → Kept s → Kept (write c m r f (body_of r f s) (ready r f s))
  write-Kept f s h = λ key.
      is_removed-remember f.fingerprint key (body_of r f s) (λ e. record e { committed = true })
        (ready r f s).tracked (λ e. refl) (λ e. refl)
      ∙ body-Kept f s h key

  -- A pass that goes on keeps what the publication has handled, and handles its finding.
  record Pass (f : Finding) (s t : Posting) : Type 0 where
    kept : Kept t
    handled_before :
        (g : Finding) → is_handled tracked before s g ≡ true → is_handled tracked before t g ≡ true
    handled_now : is_handled tracked before t f ≡ true

  posted_lem :
      (f g : Finding) (s : Posting)
      → has_finding g (s.posted ++ (as_published f ∷ []))
        ≡ (has_finding g s.posted || has_finding g (f ∷ []))
  posted_lem f g s =
      any-append (λ x. str_eq x.fingerprint g.fingerprint) s.posted (as_published f ∷ [])

  summarized_lem :
      (f g : Finding) (s : Posting)
      → has_finding g (s.summarized ++ (f ∷ []))
        ≡ (has_finding g s.summarized || has_finding g (f ∷ []))
  summarized_lem f g s = any-append (λ x. str_eq x.fingerprint g.fingerprint) s.summarized (f ∷ [])

  outcome-Pass :
      (f : Finding) (s t : Posting) → Kept s → Outcome c m r before f s (going t) → Pass f s t
  outcome-Pass f s t h (left_out e) = record {
    kept = h;
    handled_before = λ g k. k;
    handled_now = ground (arith, e, h f.fingerprint);
  }
  outcome-Pass f s t h counted = record {
    kept = h;
    handled_before = λ g k. ground (arith, k, count_of-add_one f.category g.category s.overflow);
    handled_now =
        ground (arith, count_of-add_one f.category f.category s.overflow, str_eq_refl f.category);
  }
  outcome-Pass f s t h no_line = record {
    kept = h;
    handled_before = λ g k. ground (arith, k, summarized_lem f g s);
    handled_now = ground (arith, summarized_lem f f s, str_eq_refl f.fingerprint);
  }
  outcome-Pass f s t h rejected = record {
    kept = reject-Kept f s h;
    handled_before = λ g k. ground (arith, k, summarized_lem f g s);
    handled_now = ground (arith, summarized_lem f f s, str_eq_refl f.fingerprint);
  }
  outcome-Pass f s t h (written w) = record {
    kept = write-Kept f s h;
    handled_before = λ g k. ground (arith, k, posted_lem f g s);
    handled_now = ground (arith, posted_lem f f s, str_eq_refl f.fingerprint);
  }

  -- Each way to end, with what has happened.
  pub data Explained (fs : List Finding) : Progress → Type 0 where
    finished :
        (s : Posting) → All (λ f. is_handled tracked before s f ≡ true) fs → Explained fs (going s)
    head_moved :
        (s : Posting) (k : ℕ) → str_eq (m.head k) r.head_sha ≡ false → Explained fs (stale s)
    file_missing :
        (s : Posting) (i : ℕ) (f : Finding)
        → get_elem? fs i ≡ some f
        → next_of (λ x. str_eq x.path f.anchor.file) r.files ≡ none
        → Explained fs (no_file s)
    call_raised :
        (s : Posting) (call : Call) (k : ℕ) → m.raises call k ≡ true → Explained fs (raised s)

  -- The same of the findings that are left, with what was handled before them.
  record Walk (done fs : List Finding) (p : Progress) : Type 0 where
    explained : Explained fs p
    handled : (s : Posting) → p ≡ going s → All (λ f. is_handled tracked before s f ≡ true) done

  Walk-continues :
      (f : Finding) (done fs : List Finding) (p : Progress)
      → Walk (f ∷ done) fs p
      → Walk done (f ∷ fs) p
  Walk-continues f done fs p w = record {
    explained = go p w.explained (λ s e. (w.handled s e).0);
    handled = λ s e. (w.handled s e).1;
  }
    where
      go :
          (q : Progress)
          → Explained fs q
          → ((s : Posting) → q ≡ going s → is_handled tracked before s f ≡ true)
          → Explained (f ∷ fs) q
      go q (finished s h) k = finished s (k s refl, h)
      go q (head_moved s i h) k = head_moved s i h
      go q (file_missing s i g at h) k = file_missing s (suc i) g at h
      go q (call_raised s call i h) k = call_raised s call i h

  after_pass-Walk :
      (f : Finding) (done fs : List Finding) (s : Posting) (p : Progress)
      → Kept s
      → All (λ g. is_handled tracked before s g ≡ true) done
      → Outcome c m r before f s p
      → ((t : Posting)
          → Kept t
          → All (λ g. is_handled tracked before t g ≡ true) (f ∷ done)
          → Walk (f ∷ done) fs (post_all c m r before fs t))
      → Walk done (f ∷ fs) (elim p [
        | going t ↦ post_all c m r before fs t
        | stale t ↦ stale t
        | raised t ↦ raised t
        | no_file t ↦ no_file t
      ])
  after_pass-Walk f done fs s (going t) h k o rest =
      let pass = outcome-Pass f s t h o in
      Walk-continues f done fs (post_all c m r before fs t) (
        rest t pass.kept (
          pass.handled_now,
          All-map (λ g. is_handled tracked before s g ≡ true)
              (λ g. is_handled tracked before t g ≡ true) done pass.handled_before k,
        ))
  after_pass-Walk f done fs s (stale t) h k (moved_on g) rest = record {
    explained = head_moved t s.asked g;
    handled = λ u e. ground (arith, e);
  }
  after_pass-Walk f done fs s (no_file t) h k (lost e) rest = record {
    explained = file_missing t 0 f refl e;
    handled = λ u e. ground (arith, e);
  }
  after_pass-Walk f done fs s (raised t) h k (no_answer e) rest = record {
    explained = call_raised t query_head s.asked e;
    handled = λ u e. ground (arith, e);
  }
  after_pass-Walk f done fs s (raised t) h k (not_posted e) rest = record {
    explained = elim (Bool-cases (m.raises save_body (s.asked + 1))) [
      | inl a ↦ call_raised t save_body (s.asked + 1) a
      | inr a ↦ call_raised t post_comment (s.asked + 1) (ground (arith, e, a))
    ];
    handled = λ u e. ground (arith, e);
  }
  after_pass-Walk f done fs s (raised t) h k (not_rejected e) rest = record {
    explained = call_raised t save_comment (s.asked + 1) e;
    handled = λ u e. ground (arith, e);
  }
  after_pass-Walk f done fs s (raised t) h k (not_saved w e) rest = record {
    explained = call_raised t save_comment (s.asked + 1) e;
    handled = λ u e. ground (arith, e);
  }

  post_all-Walk :
      (done fs : List Finding) (s : Posting)
      → Kept s
      → All (λ g. is_handled tracked before s g ≡ true) done
      → Walk done fs (post_all c m r before fs s)
  unfolding post_all
  post_all-Walk done [] s h k = record {
    explained = finished s tt;
    handled =
        λ u e. subst (λ x. All (λ g. is_handled tracked before x g ≡ true) done) (ap state_of e) k;
  }
  post_all-Walk done (f ∷ fs) s h k =
      after_pass-Walk f done fs s (post_one c m r before f s) h k
        (post_one-outcome c m r before f s) (λ t a b. post_all-Walk (f ∷ done) fs t a b)

module _ (c : Client) (m : Remote) (r : Report) where
  -- A publication goes through the inline findings unless the forge answered a query with another
  -- head than the reviewed one, the file of an inline finding is not among those of the change, or
  -- a call raised. If it goes through them, each had its stored comment removed before, has an
  -- open comment, or is posted, in the summary or in a category that the overflow counts.
  pub publish_inline-explained :
      (ds : List Discussion) (tracked : List Entry) (chosen : Selection)
      → Explained c m r tracked
          (existing c ds)
          chosen.inline
          (publish_inline c m r ds tracked chosen)
  unfolding publish_inline start
  publish_inline-explained ds tracked chosen =
      let s = start c m r ds tracked chosen in
      elim (Bool-cases (m.raises query_head 0)) [
        | inl a ↦ rw a (call_raised s query_head 0 a)
        | inr a ↦ elim (Bool-cases (str_eq (m.head 0) r.head_sha)) [
          | inr e ↦ rw (a, e) (head_moved s 0 e)
          | inl e ↦ elim (Bool-cases (m.raises read_discussions 0)) [
            | inl b ↦ rw (a, e, b) (call_raised s read_discussions 0 b)
            | inr b ↦
                let w =
                  post_all-Walk c m r tracked (existing c ds) [] chosen.inline s (λ key. refl) tt in
                rw (a, e, b) w.explained
          ]
        ]
      ]
