-- ===== src/Store/Rows.antt =====
-- The tables and the queries that the transactions share (reviewer/store/models.py and the private
-- helpers of reviewer/store/repositories.py). Times are numbers, JSON columns that the store only
-- copies are texts.
use code_reviewer.Prelude.{
  ℕ, ◌+◌, max, String, Bool, true, false, not, ◌&&◌, Option, none, some, List, [], ◌∷◌, ◌++◌, ◌==◌,
  if◌then◌else◌, next_of,
}
use code_reviewer.Prelude.Text.{str_eq, opt_str_eq}
use code_reviewer.States.{ReviewState, is_terminal}

pub record Project : Type 0 where
  pub id : ℕ
  pub gitlab_project_id : ℕ

pub data Kind : Type 0 where
  code document : Kind

abbrev pub is_document : Kind → Bool
is_document document = true
is_document code = false

pub record Review : Type 0 where
  pub id : String
  pub owner_user_id : Option String
  pub trigger_source : String
  pub credential_refs : Option String
  pub principal_id : Option String
  pub event_id : String
  pub kind : Kind
  pub project_id : Option ℕ
  pub mr_iid : Option ℕ
  pub subject_key : Option String
  pub head_sha : String
  pub state : ReviewState
  pub decision : Option String
  pub partial : Bool
  pub overrides : Option String
  pub execution_config : Option String
  pub started_at : ℕ
  pub finished_at : Option ℕ
  pub superseded_by : Option String
  pub error : Option String
  pub status_delivered : Bool
  pub history : List ReviewState

pub data TriggerState : Type 0 where
  waiting conflict_trigger admitted_trigger : TriggerState

pub record ReviewTrigger : Type 0 where
  pub event_id : String
  pub state : TriggerState

-- The data of a "state" event is the state; any other event's kind and data are opaque.
pub data EventData : Type 0 where
  state_event : ReviewState → EventData
  other_event : String → String → EventData

pub record ReviewEvent : Type 0 where
  pub review_id : String
  pub sequence : ℕ
  pub payload : EventData

pub record ReviewStage : Type 0 where
  pub review_id : String
  pub stage : String
  pub status : String
  pub attempts : ℕ
  pub coverage : String

pub record ReviewUnit : Type 0 where
  pub review_id : String
  pub stage : String
  pub input_hash : String
  pub content : String

pub record FindingOutcome : Type 0 where
  pub project_id : ℕ
  pub mr_iid : ℕ
  pub fingerprint : String
  pub outcome : String
  pub reason : String
  pub labelled_by : String

pub record Database : Type 0 where
  pub projects : List Project
  pub reviews : List Review
  pub triggers : List ReviewTrigger
  pub events : List ReviewEvent
  pub stages : List ReviewStage
  pub units : List ReviewUnit
  pub outcomes : List FindingOutcome

-- A write to the row that a query with the same condition finds: the first that satisfies it.
unfoldable pub update_first {ℓ} : {A : Type ℓ} → (A → Bool) → (A → A) → List A → List A
update_first p f [] = []
update_first p f (x ∷ xs) = let rest = update_first p f xs in if p x then f x ∷ xs else x ∷ rest

-- `x == y`, at nullable integers.
abbrev pub opt_num_eq : Option ℕ → ℕ → Bool
opt_num_eq none n = false
opt_num_eq (some m) n = m == n

abbrev pub has_id : String → Review → Bool
has_id id r = str_eq r.id id

-- `Store.get`.
unfoldable pub get : Database → String → Option Review
get db id = next_of (has_id id) db.reviews

-- `Store.by_event`.
unfoldable pub by_event : Database → String → Option Review
by_event db event_id = next_of (λ r. str_eq r.event_id event_id) db.reviews

-- The query for the active review of a merge request.
abbrev pub is_active_code : ℕ → ℕ → Review → Bool
is_active_code project iid r =
    opt_num_eq r.project_id project && (opt_num_eq r.mr_iid iid && not (is_terminal r.state))

-- The query for the active review of a page.
abbrev pub is_active_document : String → Review → Bool
is_active_document subject_key r =
    is_document r.kind && (opt_str_eq r.subject_key (some subject_key) && not (is_terminal r.state))

-- `func.coalesce(func.max(ReviewEvent.sequence), 0)` over one review's events.
unfoldable pub last_sequence : String → List ReviewEvent → ℕ
last_sequence id [] = 0
last_sequence id (e ∷ es) =
    let rest = last_sequence id es in if str_eq e.review_id id then max e.sequence rest else rest

-- `_event`: one more event at the end of the log.
unfoldable pub add_event : String → EventData → List ReviewEvent → List ReviewEvent
unfolding last_sequence
add_event id payload es =
    es ++ (record { review_id = id; sequence = last_sequence id es + 1; payload = payload } ∷ [])

-- `trigger = await session.get(ReviewTrigger, event_id); if trigger: trigger.state = ...`.
unfoldable pub set_trigger : String → TriggerState → List ReviewTrigger → List ReviewTrigger
unfolding update_first
set_trigger event_id state =
    update_first (λ t. str_eq t.event_id event_id) (λ t. record t { state = state })

-- `append_event`, for the row that was found: nothing is logged for a review that is not there.
abbrev pub append_found : Option Review → String → EventData → Database → Database
unfolding add_event
append_found none id payload db = db
append_found (some r) id payload db = record db { events = add_event id payload db.events }

unfoldable pub append_event : Database → String → EventData → Database
unfolding get append_found
append_event db id payload = append_found (get db id) id payload db
