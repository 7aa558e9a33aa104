-- ===== src/Orchestrator/Stages.antt =====
-- The defect review over the planned units (`execute` of reviewer/orchestrator/stages.py), worked on
-- by concurrent workers. The agent's answers, the stored results and the clock are the parameter
-- `Calls`; `P` is the type of proposed findings.
pub mod Order
pub mod Runs
pub mod Coverage
pub mod Progress
pub mod Ends
use code_reviewer.Prelude.{
  ℕ, zero, suc, ◌+◌, ◌-◌, ◌<◌, String, ◌≡◌, Bool, true, false, not, ◌&&◌, ◌||◌, Option, none, some,
  List, [], ◌∷◌, ◌++◌, map, ltb, ◌==◌, if◌then◌else◌, length, select_if, get_elem?,
}
use code_reviewer.Prelude.Text.{str_append, str_eq, str_mem}

pub record WorkUnit : Type 0 where
  pub id : String
  pub omitted : Bool

pub record Envelope {ℓ} (P : Type ℓ) : Type ℓ where
  pub findings : List P
  pub findings_truncated : Bool
  pub notes_for_summary : String
  pub units_examined : List String
  pub units_skipped : List String

pub record StageResult {ℓ} (P : Type ℓ) : Type ℓ where
  pub findings : List P
  pub examined : List String
  pub skipped : List String
  pub notes : List String
  pub failed : Bool
  pub partial : Bool
  pub attempts : ℕ

-- What `agent.run` does in one attempt: it returns, or raises `BudgetExhausted`, `TimeoutError` with
-- the envelopes of the attempt so far, or another exception.
pub data Answer {ℓ} (P : Type ℓ) : Type ℓ where
  answered : Envelope P → Answer P
  out_of_budget : Answer P
  timed_out : List (Envelope P) → Answer P
  raised : Answer P

-- `late` says whether the deadline has passed when a worker takes the unit.
pub record Calls {ℓ} (P : Type ℓ) : Type ℓ where
  pub has_scenario : P → Bool
  pub answer : WorkUnit → ℕ → Answer P
  pub cached : WorkUnit → Option (StageResult P)
  pub selected : List String
  pub late : WorkUnit → Bool

module _ {ℓ} {P : Type ℓ} where
  abbrev pub no_result : StageResult P
  no_result = record {
    findings = [];
    examined = [];
    skipped = [];
    notes = [];
    failed = false;
    partial = false;
    attempts = 0;
  }

  abbrev pub add_note : String → StageResult P → StageResult P
  add_note note r = record r { notes = r.notes ++ (note ∷ []) }

  -- Coverage of a unit by an envelope.
  abbrev pub examines : WorkUnit → Envelope P → Bool
  examines u e = str_mem u.id e.units_examined && not (str_mem u.id e.units_skipped)

  abbrev with_truncation : Envelope P → StageResult P → StageResult P
  with_truncation e r =
      if e.findings_truncated
      then record (add_note "Additional findings omitted by the per-unit limit" r) {
        partial = true;
      }
      else r

  abbrev with_summary : Envelope P → StageResult P → StageResult P
  with_summary e r = if str_eq e.notes_for_summary "" then r else add_note e.notes_for_summary r

  -- The last envelope that passes.
  unfoldable pub last_of : (Envelope P → Bool) → List (Envelope P) → Option (Envelope P)
  last_of p [] = none
  last_of p (e ∷ es) = elim (last_of p es) [ some x ↦ some x | none ↦ if p e then some e else none ]

  abbrev pub is_examined : StageResult P → Bool
  is_examined r = elim r.examined [ [] ↦ false | x ∷ xs ↦ true ]

  abbrev pub examine : WorkUnit → StageResult P → StageResult P
  examine u r = record r { examined = r.examined ++ (u.id ∷ []) }

  abbrev pub skip : WorkUnit → StageResult P → StageResult P
  skip u r = record r { skipped = r.skipped ++ (u.id ∷ []); partial = true }

  -- `if not result.examined: ...`
  abbrev pub close : WorkUnit → StageResult P → StageResult P
  close u r = if is_examined r then r else skip u r

  -- `result.findings.extend(item.findings)` and so on.
  abbrev pub merge_two : StageResult P → StageResult P → StageResult P
  merge_two result item = record {
    findings = result.findings ++ item.findings;
    examined = result.examined ++ item.examined;
    skipped = result.skipped ++ item.skipped;
    notes = result.notes ++ item.notes;
    failed = result.failed || item.failed;
    partial = result.partial || item.partial;
    attempts = result.attempts + item.attempts;
  }

  unfoldable pub merge : StageResult P → List (StageResult P) → StageResult P
  merge result [] = result
  merge result (item ∷ items) = merge (merge_two result item) items

  -- `completed[index] = result`, of a dict that is read in the order of its keys.
  unfoldable pub put : ℕ → StageResult P → List (ℕ × StageResult P) → List (ℕ × StageResult P)
  put i r [] = (i, r) ∷ []
  put i r ((j, q) ∷ d) =
      let rest = put i r d in
      if ltb i j then (i, r) ∷ ((j, q) ∷ d) else if i == j then (i, r) ∷ d else (j, q) ∷ rest

-- `progress`.
pub record Counts : Type 0 where
  pub total : ℕ
  pub completed : ℕ
  pub running : ℕ
  pub idle : ℕ
  pub stopped : ℕ

-- The shared variables. `pending` is what the iterator has left, from the index `next`; `running`
-- says which indices a worker is busy with.
pub record Execution {ℓ} (P : Type ℓ) : Type ℓ where
  pub next : ℕ
  pub pending : List WorkUnit
  pub running : ℕ → Bool
  pub completed : List (ℕ × StageResult P)
  pub exhausted : Bool
  pub saved : List (String × StageResult P)
  pub counts : Counts

abbrev pub set : (ℕ → Bool) → ℕ → Bool → ℕ → Bool
set f i b j = if j == i then b else f j

abbrev pub count_end : Bool → Counts → Counts
count_end true c = record c { completed = c.completed + 1 }
count_end false c = record c { stopped = c.stopped + 1 }

module _ {ℓ} {P : Type ℓ} (c : Calls P) where
  abbrev pub extend : Envelope P → StageResult P → StageResult P
  extend e r = with_summary e (
      with_truncation e (record r { findings = r.findings ++ select_if c.has_scenario e.findings }))

  abbrev keep : WorkUnit → Option (Envelope P) → StageResult P → StageResult P
  keep u none r =
      add_note (str_append u.id ": Unit deadline reached; remaining coverage is unknown") r
  keep u (some e) r =
      add_note
        (str_append u.id
          ": Requested context did not arrive before the unit deadline; the earlier answer was kept")
        (examine u (extend e r))

  -- What an attempt makes of its answer, with the attempt that may follow; and whether `exhausted` is
  -- set.
  abbrev pub after_answer :
      WorkUnit
      → StageResult P
      → (StageResult P → StageResult P × Bool)
      → Answer P
      → StageResult P × Bool
  after_answer u s again (answered e) =
      if examines u e
      then (examine u (extend e s), false)
      else if str_mem u.id e.units_skipped
      then (extend e s, false)
      else again (extend e s)
  after_answer u s again out_of_budget =
      (add_note (str_append u.id ": Review token or time budget exhausted") s, true)
  after_answer u s again (timed_out observed) = (keep u (last_of (examines u) observed) s, false)
  after_answer u s again raised = (
    add_note (str_append u.id ": Review attempt failed; see audited call outcomes")
        (record s { failed = true }),
    false,
  )

  -- The attempts that are left, from the k-th.
  unfoldable pub attempt : WorkUnit → ℕ → ℕ → StageResult P → StageResult P × Bool
  attempt u zero k r = (r, false)
  attempt u (suc left) k r =
      after_answer u (record r { attempts = r.attempts + 1 }) (λ s. attempt u left (k + 1) s)
        (c.answer u k)

  -- A unit that is not sent to the agent.
  abbrev pub leave_out : Bool → WorkUnit → StageResult P
  leave_out exhausted u =
      let reason =
        if u.omitted
        then "Source line exceeds chunk allowance"
        else if exhausted
        then "Review token budget exhausted"
        else "Analysis deadline reached" in
      add_note (str_append u.id (str_append ": " (str_append reason "; coverage is unknown")))
        (skip u no_result)

  abbrev pub is_left_out : Bool → WorkUnit → Bool
  is_left_out exhausted u = exhausted || u.omitted || not (str_mem u.id c.selected) || c.late u

  -- The work on a unit that is sent to the agent.
  unfoldable pub review_unit : WorkUnit → StageResult P × Bool
  unfolding attempt
  review_unit u = let (r, exhausted) = attempt u 2 0 no_result in (close u r, exhausted)

  -- A unit whose result is there when it is taken.
  abbrev pub settled : ℕ → WorkUnit → List WorkUnit → StageResult P → Execution P → Execution P
  settled i u rest r s = record s {
    next = i + 1;
    pending = rest;
    completed = put i r s.completed;
    counts = count_end (is_examined r) (record s.counts { idle = s.counts.idle - 1 });
  }

  abbrev pub begun : ℕ → List WorkUnit → Execution P → Execution P
  begun i rest s = record s {
    next = i + 1;
    pending = rest;
    running = set s.running i true;
    counts = record s.counts { idle = s.counts.idle - 1; running = s.counts.running + 1 };
  }

  abbrev pub take_with :
      Option (StageResult P) → WorkUnit → List WorkUnit → Execution P → Execution P
  take_with (some r) u rest s = settled s.next u rest r s
  take_with none u rest s =
      if is_left_out s.exhausted u
      then settled s.next u rest (leave_out s.exhausted u) s
      else begun s.next rest s

  -- A worker takes the next unit, up to its first wait for the agent.
  abbrev pub take_unit : WorkUnit → List WorkUnit → Execution P → Execution P
  take_unit u rest s = take_with (c.cached u) u rest s

  -- A worker ends its unit, and stores the result, here under the unit's id. In the source the result is
  -- in `completed` while it is made; it is read at the end only.
  unfoldable pub end_unit : ℕ → WorkUnit → Execution P → Execution P
  unfolding review_unit
  end_unit i u s =
      let (r, exhausted) = review_unit u in
      record s {
        running = set s.running i false;
        completed = put i r s.completed;
        exhausted = s.exhausted || exhausted;
        saved = s.saved ++ ((u.id, r) ∷ []);
        counts = count_end (is_examined r) (record s.counts { running = s.counts.running - 1 });
      }

abbrev pub begin {ℓ} : {P : Type ℓ} → List WorkUnit → Execution P
begin units = record {
  next = 0;
  pending = units;
  running = λ i. false;
  completed = [];
  exhausted = false;
  saved = [];
  counts = record {
    total = length units;
    completed = 0;
    running = 0;
    idle = length units;
    stopped = 0;
  };
}

-- What `execute` returns when the workers are done.
abbrev pub stage_result {ℓ} : {P : Type ℓ} → Execution P → StageResult P
stage_result s = merge no_result (map (λ e. e.1) s.completed)

-- The steps of the workers; a worker that is not busy takes a unit.
pub data Step {ℓ} {P : Type ℓ} (c : Calls P) (workers : ℕ) (units : List WorkUnit) (s : Execution P)
    : Execution P → Type ℓ where
  taken :
      (u : WorkUnit) (rest : List WorkUnit)
      → s.pending ≡ u ∷ rest
      → s.counts.running < workers
      → Step c workers units s (take_unit c u rest s)
  ended :
      (i : ℕ) (u : WorkUnit)
      → s.running i ≡ true
      → get_elem? units i ≡ some u
      → Step c workers units s (end_unit c i u s)

pub data Reach {ℓ} {P : Type ℓ} (c : Calls P) (workers : ℕ) (units : List WorkUnit)
    : Execution P → Type ℓ where
  begins : Reach c workers units (begin units)
  steps :
      {s t : Execution P}
      → Reach c workers units s
      → Step c workers units s t
      → Reach c workers units t
