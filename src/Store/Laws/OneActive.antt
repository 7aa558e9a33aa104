-- ===== src/Store/Laws/OneActive.antt =====
-- Each transaction keeps at most one active review for a merge request, and for a page
-- (reviewer/store/repositories.py).
pub mod Moves
use code_reviewer.Prelude.{
  ℕ, ◌≤◌, String, ◌≡◌, refl, inl, inr, Bool, ◌&&◌, none, some, arith, ◌==◌, Bool-cases,
  Option-cases, next_of,
}
use code_reviewer.Prelude.Text.{str_append, str_eq, eq_of_str_eq}
use code_reviewer.Store.Rows.{
  by_event, Database, Review, is_active_code, is_active_document, document, code,
}
use code_reviewer.Store.Laws.Updates.{one_if}
use code_reviewer.Store.Laws.Active.{
  OneActive, counted, supersede_active-counted, supersede_active-clears, add_review-counted,
  off_code, off_document,
}
use code_reviewer.Store.Admission.{
  owned_by_other, is_refused, Request, supersede, supersede_active, add_review, new_review, admit,
  accept, accept_document, admit_document,
}

one_if-le : (b : Bool) → one_if b ≤ 1
one_if-le b = ground arith

-- A new review is active for its own target alone.
new_code :
    (q : Request) (p i p' i' : ℕ) (id : String) (now : ℕ)
    → is_active_code p' i' (new_review q code (some p) (some i) none id now)
      ≡ ((p == p') && (i == i'))
new_code q p i p' i' id now = ground arith

new_document :
    (q : Request) (key key' id : String) (now : ℕ)
    → is_active_document key' (new_review q document none none (some key) id now) ≡ str_eq key key'
new_document q key key' id now = ground arith

module _ (q : Request) (id : String) (now : ℕ) (db : Database) (one : OneActive db) where
  -- What superseding leaves for a merge request, and for a page.
  less_code :
      (p : Review → Bool) (p' i' : ℕ)
      → counted (is_active_code p' i') (supersede_active p id now db) ≤ 1
  less_code p p' i' = omega (
    arith,
    one.per_merge_request p' i',
    supersede_active-counted p (is_active_code p' i') id now db
        (λ r. off_code p' i' (supersede id now r) refl),
  )

  less_document :
      (p : Review → Bool) (key : String)
      → counted (is_active_document key) (supersede_active p id now db) ≤ 1
  less_document p key = omega (
    arith,
    one.per_page key,
    supersede_active-counted p (is_active_document key) id now db
        (λ r. off_document key (supersede id now r) refl),
  )

  added_code :
      (p i : ℕ)
      → OneActive (
          add_review
            (new_review q code (some p) (some i) none id now)
            (supersede_active (is_active_code p i) id now db))
  added_code p i = record {
    per_merge_request = λ p' i'.
        let total =
          add_review-counted (is_active_code p' i')
            (new_review q code (some p) (some i) none id now)
            (supersede_active (is_active_code p i) id now db) in
        elim (Bool-cases ((p == p') && (i == i'))) [
          | inl e ↦
              let ep : p ≡ p' = ground arith in
              let ei : i ≡ i' = ground arith in
              rw (← ep, ← ei)
                (omega (
                  arith,
                  add_review-counted (is_active_code p i)
                      (new_review q code (some p) (some i) none id now)
                      (supersede_active (is_active_code p i) id now db),
                  supersede_active-clears (is_active_code p i) id now db
                      (λ r. off_code p i (supersede id now r) refl) (one.per_merge_request p i),
                  one_if-le (is_active_code p i (new_review q code (some p) (some i) none id now)),
                ))
          | inr e ↦
              ground
                (arith, total, new_code q p i p' i' id now, less_code (is_active_code p i) p' i')
        ];
    per_page = λ key. omega (
      arith,
      add_review-counted (is_active_document key) (new_review q code (some p) (some i) none id now)
          (supersede_active (is_active_code p i) id now db),
      less_document (is_active_code p i) key,
    );
  }

  added_document :
      (w : Request) (key : String)
      → OneActive (
          add_review
            (new_review w document none none (some key) id now)
            (supersede_active (is_active_document key) id now db))
  added_document w key = record {
    per_merge_request = λ p' i'. omega (
      arith,
      add_review-counted (is_active_code p' i') (new_review w document none none (some key) id now)
          (supersede_active (is_active_document key) id now db),
      less_code (is_active_document key) p' i',
    );
    per_page = λ key'. elim (Bool-cases (str_eq key key')) [
      | inl e ↦ rw (← eq_of_str_eq key key' e) (
          omega (
            arith,
            add_review-counted (is_active_document key)
                (new_review w document none none (some key) id now)
                (supersede_active (is_active_document key) id now db),
            supersede_active-clears (is_active_document key) id now db
                (λ r. off_document key (supersede id now r) refl) (one.per_page key),
            one_if-le (is_active_document key (new_review w document none none (some key) id now)),
          ))
      | inr e ↦ ground (
        arith,
        add_review-counted (is_active_document key')
            (new_review w document none none (some key) id now)
            (supersede_active (is_active_document key) id now db),
        new_document w key key' id now,
        less_document (is_active_document key) key',
      )
    ];
  }

  admit-OneActive : (p i : ℕ) → OneActive (admit q p i id now db).0
  unfolding admit
  admit-OneActive p i = elim (Bool-cases (is_refused q (next_of (is_active_code p i) db.reviews))) [
    | inl e ↦ rw e (record { per_merge_request = one.per_merge_request; per_page = one.per_page })
    | inr e ↦ rw e (added_code p i)
  ]

  admit_document-OneActive : (key : String) → OneActive (admit_document q key id now db).0
  unfolding admit_document
  admit_document-OneActive key =
      elim (Bool-cases
        (owned_by_other q.owner_user_id (next_of (is_active_document key) db.reviews))) [
          | inl e ↦
              rw e (record { per_merge_request = one.per_merge_request; per_page = one.per_page })
          | inr e ↦ rw e (added_document (record q { trigger_source = "manual" }) key)
        ]

  pub accept-OneActive : (p i : ℕ) → OneActive (accept q p i id now db).0
  unfolding accept
  accept-OneActive p i = elim (Option-cases (next_of (λ j. j.gitlab_project_id == p) db.projects)) [
    | inl e ↦ rw e one
    | inr (j, e) ↦ rw e (elim (Option-cases (by_event db q.event_id)) [
      | inl g ↦ rw g (admit-OneActive j.id i)
      | inr (r, g) ↦ rw g one
    ])
  ]

  pub accept_document-OneActive : (page : String) → OneActive (accept_document q page id now db).0
  unfolding accept_document
  accept_document-OneActive page = elim (Option-cases (by_event db q.event_id)) [
    | inl g ↦ rw g (admit_document-OneActive (str_append "confluence:" page))
    | inr (r, g) ↦ rw g one
  ]
