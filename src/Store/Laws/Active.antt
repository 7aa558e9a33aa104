-- ===== src/Store/Laws/Active.antt =====
-- At most one active review for a merge request, and for a page (reviewer/store/repositories.py). The
-- source also has unique indexes for this (reviewer/store/models.py); here they are not used.
use code_reviewer.Prelude.{
  ℕ, ◌+◌, ◌≤◌, String, ◌≡◌, inl, inr, Bool, true, false, some, List, arith, Option-cases, length,
  select_if, next_of,
}
use code_reviewer.States.{is_terminal}
use code_reviewer.Store.Rows.{Database, Review, is_active_code, is_active_document, update_first}
use code_reviewer.Store.Laws.Updates.{
  update_first_counts, select_if_append, next_of_holds, next_of-none, one_if,
}
use code_reviewer.Store.Admission.{supersede, supersede_active, add_review}

-- How many reviews satisfy a test.
abbrev pub counted : (Review → Bool) → Database → ℕ
counted q db = length (select_if q db.reviews)

pub record OneActive (db : Database) : Type 0 where
  pub per_merge_request : (project iid : ℕ) → counted (is_active_code project iid) db ≤ 1
  pub per_page : (key : String) → counted (is_active_document key) db ≤ 1

-- A write that makes no row active counts no more.
pub counted-write :
    (p q : Review → Bool) (f : Review → Review) (xs : List Review) (r : Review)
    → next_of p xs ≡ some r
    → (q (f r) ≡ true → q r ≡ true)
    → length (select_if q (update_first p f xs)) ≤ length (select_if q xs)
counted-write p q f xs r h keep = ground (arith, update_first_counts p q f xs r h)

-- After superseding, no review is active for the target that had at most one, and the counts for
-- other targets have not grown.
pub supersede_active-counted :
    (p q : Review → Bool) (id : String) (now : ℕ) (db : Database)
    → ((r : Review) → q (supersede id now r) ≡ false)
    → counted q (supersede_active p id now db) ≤ counted q db
unfolding supersede_active
supersede_active-counted p q id now db off = elim (Option-cases (next_of p db.reviews)) [
  | inl e ↦ rw e (omega arith)
  | inr (r, e) ↦
      rw e (ground (arith, off r, update_first_counts p q (supersede id now) db.reviews r e))
]

pub supersede_active-clears :
    (p : Review → Bool) (id : String) (now : ℕ) (db : Database)
    → ((r : Review) → p (supersede id now r) ≡ false)
    → counted p db ≤ 1
    → counted p (supersede_active p id now db) ≡ 0
unfolding supersede_active
supersede_active-clears p id now db off one = elim (Option-cases (next_of p db.reviews)) [
  | inl e ↦ rw e (next_of-none p db.reviews e)
  | inr (r, e) ↦ rw e (
      ground (
        arith,
        off r,
        next_of_holds p db.reviews r e,
        update_first_counts p p (supersede id now) db.reviews r e,
      ))
]

pub add_review-counted :
    (q : Review → Bool) (r : Review) (db : Database)
    → counted q (add_review r db) ≡ counted q db + one_if (q r)
unfolding add_review
add_review-counted q r db = select_if_append q db.reviews r

-- The tests of both indexes are false at a terminal review.
pub off_code :
    (project iid : ℕ) (r : Review)
    → is_terminal r.state ≡ true
    → is_active_code project iid r ≡ false
off_code project iid r h = ground arith

pub off_document :
    (key : String) (r : Review) → is_terminal r.state ≡ true → is_active_document key r ≡ false
off_document key r h = ground arith
