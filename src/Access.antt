-- ===== src/Access.antt =====
-- Who may read, run and stop a review (reviewer/accounts/policy.py).
pub mod Laws
use code_reviewer.Prelude.{
  String, Bool, true, false, not, ◌&&◌, ◌||◌, Option, none, some, if◌then◌else◌,
}
use code_reviewer.Prelude.Text.{str_eq}
use code_reviewer.Store.Rows.{Database, get, Review}
use code_reviewer.States.{failed_context, failed_internal, is_unstoppable, is_terminal, ReviewState}

pub data Role : Type 0 where
  user admin : Role

pub record Account : Type 0 where
  pub id : String
  pub role : Role

abbrev pub is_user : Role → Bool
is_user user = true
is_user admin = false

-- `review.owner_user_id == account.id`.
abbrev pub is_owned_by : Option String → Account → Bool
is_owned_by none a = false
is_owned_by (some owner) a = str_eq owner a.id

-- The two HTTP errors of `review_access`, and its result.
pub data Access : Type 0 where
  not_found : Access
  restricted : Access
  granted : Review → Access

abbrev pub access_to : Account → Bool → Option Review → Access
access_to a execute none = not_found
access_to a execute (some r) =
    if is_user a.role && not (is_owned_by r.owner_user_id a)
    then not_found
    else if execute && (not (is_user a.role) || not (is_owned_by r.owner_user_id a))
    then restricted
    else granted r

unfoldable pub review_access : Account → Database → String → Bool → Access
unfolding get
review_access a db id execute = access_to a execute (get db id)

-- `RETRYABLE`.
abbrev pub is_retryable : ReviewState → Bool
is_retryable failed_context = true
is_retryable failed_internal = true
is_retryable _ = false

pub record Control : Type 0 where
  pub allowed : Bool
  pub reason : Option String

pub record Controls : Type 0 where
  pub stop : Control
  pub rerun : Control
  pub retry : Control

abbrev pub allow : Control
allow = record { allowed = true; reason = none }

abbrev pub refuse : String → Control
refuse reason = record { allowed = false; reason = some reason }

abbrev pub is_owner : Account → Option String → Bool
is_owner a owner = is_user a.role && is_owned_by owner a

unfoldable pub run_controls : Account → Option String → ReviewState → Bool → Controls
run_controls a owner state overtaken =
    let refused = refuse "Only the review's owner can run or stop it" in
    if not (is_owner a owner)
    then record { stop = refused; rerun = refused; retry = refused }
    else record {
      stop =
          if is_terminal state
          then refuse "The review has finished"
          else if is_unstoppable state
          then refuse "The review is publishing its report"
          else allow;
      rerun = allow;
      retry =
          if not (is_retryable state)
          then refuse (
              if not (is_terminal state)
              then "The review is still running"
              else "Only a failed review can be retried")
          else if overtaken
          then refuse "A later review has run since this one; rerun instead"
          else allow;
    }
