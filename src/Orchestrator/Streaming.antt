-- ===== src/Orchestrator/Streaming.antt =====
-- Early work on a file's findings (reviewer/orchestrator/streaming.py). `prepare` (validation,
-- deduplication and verification of one file's proposals) and `clean` are arguments, as in the
-- source; a task that was created early is the value that it will return.
pub mod Laws
use code_reviewer.Prelude.{
  ℕ, suc, String, Bool, true, false, not, ◌&&◌, Option, none, some, List, [], ◌∷◌, ◌++◌, map, ◌==◌,
  if◌then◌else◌, all,
}
use code_reviewer.Prelude.Text.{str_eq, str_mem}
use code_reviewer.Prelude.Int.{ℤ, pos, ◌+ℤ◌, ◌-ℤ◌, ltb_ℤ}

-- A `WorkUnit`, for its paths.
abbrev pub Paths : Type 0
Paths = List String

-- What the stream is given: how a proposal is cleaned, which file it is anchored in, its key, and
-- the work on one file's proposals, which returns (findings, discarded).
pub record Work {ℓ} (P : Type ℓ) (F : Type ℓ) : Type ℓ where
  pub clean : P → P
  pub file : P → String
  pub key : P → String
  pub prepare : List P → List F × List F

-- A dict by path.
abbrev pub Dict {ℓ} : Type ℓ → Type ℓ
Dict A = List (String × A)

module _ {ℓ} {A : Type ℓ} where
  unfoldable pub lookup : String → Dict A → Option A
  lookup p [] = none
  lookup p ((q, a) ∷ d) = if str_eq q p then some a else lookup p d

  -- `d.pop(p, None)` leaves the dict without the key.
  unfoldable pub without : String → Dict A → Dict A
  without p [] = []
  without p ((q, a) ∷ d) = let rest = without p d in if str_eq q p then rest else (q, a) ∷ rest

abbrev pub or_zero : Option ℤ → ℤ
or_zero none = pos 0
or_zero (some n) = n

-- `pending[path] += n`, of a `Counter`.
unfoldable pub count_by : ℤ → String → Dict ℤ → Dict ℤ
unfolding ◌+ℤ◌
count_by n p [] = (p, n) ∷ []
count_by n p ((q, m) ∷ d) = if str_eq q p then (q, m +ℤ n) ∷ d else (q, m) ∷ count_by n p d

-- `by_file[path].append(x)`, of a `defaultdict(list)`.
unfoldable pub append_to {ℓ} : {A : Type ℓ} → String → A → Dict (List A) → Dict (List A)
append_to p x [] = (p, x ∷ []) ∷ []
append_to p x ((q, xs) ∷ d) =
    let rest = append_to p x d in if str_eq q p then (q, xs ++ (x ∷ [])) ∷ d else (q, xs) ∷ rest

unfoldable pub occurrences : String → List String → ℕ
occurrences k [] = 0
occurrences k (j ∷ js) = let rest = occurrences k js in if str_eq j k then suc rest else rest

-- `Counter(xs) == Counter(ys)`.
unfoldable pub same_counts : List String → List String → Bool
unfolding occurrences
same_counts xs ys = all (λ k. occurrences k xs == occurrences k ys) (xs ++ ys)

abbrev pub is_absent {ℓ} : {A : Type ℓ} → Option A → Bool
is_absent none = true
is_absent (some a) = false

module _ {ℓ} {P F : Type ℓ} (w : Work P F) where
  open w use {clean, file, key, prepare}

  -- The counter of the inputs that an early task was started with, and its result.
  pub record Early : Type ℓ where
    pub keys : List String
    pub result : List F × List F

  pub record FileStream : Type ℓ where
    pub pending : Dict ℤ
    pub planned_paths : List String
    pub inputs : Dict (List P)
    pub started : Dict Early

  abbrev pub new_stream : FileStream
  new_stream = record { pending = []; planned_paths = []; inputs = []; started = [] }

  pub plan_paths : List String → FileStream → FileStream
  unfolding count_by
  plan_paths [] s = s
  plan_paths (p ∷ ps) s =
      plan_paths ps
        (record s { pending = count_by (pos 1) p s.pending; planned_paths = p ∷ s.planned_paths })

  -- `planned`.
  unfoldable pub planned : List Paths → FileStream → FileStream
  unfolding plan_paths
  planned [] s = s
  planned (u ∷ us) s = planned us (plan_paths u s)

  pub collect : List P → Dict (List P) → Dict (List P)
  unfolding append_to
  collect [] d = d
  collect (x ∷ xs) d = collect xs (append_to (file (clean x)) (clean x) d)

  pub count_down : List String → Dict ℤ → Dict ℤ
  unfolding count_by
  count_down [] d = d
  count_down (p ∷ ps) d = count_down ps (count_by (pos 0 -ℤ pos 1) p d)

  -- `path in planned_paths and pending[path] <= 0 and path not in started`.
  unfoldable pub may_start : FileStream → String → Bool
  unfolding lookup ◌-ℤ◌
  may_start s p =
      str_mem p s.planned_paths
      && (not (ltb_ℤ (pos 0) (or_zero (lookup p s.pending))) && is_absent (lookup p s.started))

  abbrev pub begin : List P → Early
  begin xs = record { keys = map key xs; result = prepare xs }

  abbrev pub start_if : Bool → String → List P → FileStream → FileStream
  start_if true p xs s = record s { started = (p, begin xs) ∷ s.started }
  start_if false p xs s = s

  -- The loop over `inputs` at the end of `finished`.
  unfoldable pub start_ready : Dict (List P) → FileStream → FileStream
  start_ready [] s = s
  start_ready ((p, xs) ∷ d) s = start_ready d (start_if (may_start s p) p xs s)

  -- `finished`.
  unfoldable pub finished : Paths → List P → FileStream → FileStream
  unfolding collect count_down
  finished unit found s =
      let t = record s { inputs = collect found s.inputs; pending = count_down unit s.pending } in
      start_ready t.inputs t

  pub group : List P → Dict (List P) → Dict (List P)
  unfolding append_to
  group [] d = d
  group (x ∷ xs) d = group xs (append_to (file x) x d)

  -- `by_file` of `finish`.
  unfoldable pub by_file : List P → Dict (List P)
  unfolding group
  by_file proposals = group proposals []

  -- The early result where its inputs are the same, else the work on these.
  abbrev pub work_on : Option Early → List P → List F × List F
  unfolding same_counts
  work_on none items = prepare items
  work_on (some e) items = if same_counts e.keys (map key items) then e.result else prepare items

  -- The loop of `finish`: (findings, discarded), in the order of the files.
  pub finish_files : Dict (List P) → Dict Early → List F × List F
  unfolding work_on lookup without
  finish_files [] started = ([], [])
  finish_files ((p, items) ∷ d) started =
      let (values, dropped) = work_on (lookup p started) items in
      let (findings, discarded) = finish_files d (without p started) in
      (values ++ findings, dropped ++ discarded)

  -- `finish`: the results, and the stream with nothing started.
  unfoldable pub finish : List P → FileStream → (List F × List F) × FileStream
  unfolding by_file finish_files
  finish proposals s = (finish_files (by_file proposals) s.started, record s { started = [] })
