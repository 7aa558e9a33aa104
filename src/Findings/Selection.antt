-- ===== src/Findings/Selection.antt =====
-- Which findings are shown inline, which in the summary, and which only counted
-- (reviewer/findings/noise.py).
pub mod Limits
use code_reviewer.Prelude.{
  ℕ, ◌+◌, min, String, Bool, true, false, not, ◌||◌, Option, none, some, List, [], ◌∷◌, ◌++◌, ltb,
  leb, if◌then◌else◌, length,
}
use code_reviewer.Prelude.Text.{str_eq}
use code_reviewer.Prelude.Sorting.{sort_by}
use code_reviewer.Findings.Models.{
  Severity, nit, fyi, question, praise, order, Finding, Confidence, high, medium, low, is_closed,
  one_of,
}

-- A `Counter` by category or by file.
abbrev pub Counter : Type 0
Counter = List (String × ℕ)

unfoldable pub count_of : String → Counter → ℕ
count_of k [] = 0
count_of k ((j, n) ∷ c) = if str_eq j k then n else count_of k c

-- `counter[k] += 1`.
unfoldable pub add_one : String → Counter → Counter
add_one k [] = (k, 1) ∷ []
add_one k ((j, n) ∷ c) = if str_eq j k then (j, n + 1) ∷ c else (j, n) ∷ add_one k c

-- A candidate with its severity, so that `ORDER[f.severity_final]` is defined.
pub record Candidate : Type 0 where
  pub finding : Finding
  pub severity : Severity

abbrev confidence_order : Confidence → ℕ
confidence_order high = 0
confidence_order medium = 1
confidence_order low = 2

abbrev flag_order : Bool → ℕ
flag_order true = 1
flag_order false = 0

-- The key of the sort, as the tuples that Python compares from the left; `-len(f.evidence)` is
-- compared the other way round.
unfoldable pub not_after : Candidate → Candidate → Bool
not_after a b =
    let later_a = flag_order (not a.finding.anchor.introduced_by_this_change) in
    let later_b = flag_order (not b.finding.anchor.introduced_by_this_change) in
    let sure_a = confidence_order a.finding.confidence in
    let sure_b = confidence_order b.finding.confidence in
    if ltb (order a.severity) (order b.severity)
    then true
    else if ltb (order b.severity) (order a.severity)
    then false
    else if ltb later_a later_b
    then true
    else if ltb later_b later_a
    then false
    else if ltb sure_a sure_b
    then true
    else if ltb sure_b sure_a
    then false
    else leb (length b.finding.evidence) (length a.finding.evidence)

-- `status not in {"discarded", "suppressed", "resolved"}` for each; `none` is the `KeyError` of a
-- candidate that has no final severity.
abbrev with_severity : Option Severity → Finding → Option (List Candidate) → Option (List Candidate)
with_severity none f rest = none
with_severity (some s) f none = none
with_severity (some s) f (some cs) = some (record { finding = f; severity = s } ∷ cs)

unfoldable pub candidates : List Finding → Option (List Candidate)
candidates [] = some []
candidates (f ∷ fs) =
    let rest = candidates fs in
    if is_closed f.status then rest else with_severity f.severity_final f rest

-- The variables of the loop.
pub record Selection : Type 0 where
  pub inline : List Finding
  pub summary : List Finding
  pub overflow : Counter
  pub per_file : Counter
  pub existing : ℕ

abbrev pub no_selection : Selection
no_selection = record { inline = []; summary = []; overflow = []; per_file = []; existing = 0 }

-- The part of the loop's body behind the test on pre-existing findings.
unfoldable pub place : ℕ → ℕ → Candidate → Selection → Selection
place max_inline max_per_file c s =
    let f = c.finding in
    if one_of c.severity (nit ∷ fyi ∷ question ∷ praise ∷ []) || not f.anchor.in_diff
    then record s { summary = s.summary ++ (f ∷ []) }
    else if leb (min 15 max_inline) (length s.inline)
        || leb (min 5 max_per_file) (count_of f.anchor.file s.per_file)
    then record s { overflow = add_one f.category s.overflow }
    else record s { inline = s.inline ++ (f ∷ []); per_file = add_one f.anchor.file s.per_file }

-- The body of the loop: at most two pre-existing findings are placed.
unfoldable pub visit : ℕ → ℕ → Candidate → Selection → Selection
unfolding place
visit max_inline max_per_file c s =
    if c.finding.anchor.introduced_by_this_change
    then place max_inline max_per_file c s
    else if leb 2 s.existing
    then record s { overflow = add_one c.finding.category s.overflow }
    else place max_inline max_per_file c (record s { existing = s.existing + 1 })

unfoldable pub visit_all : ℕ → ℕ → List Candidate → Selection → Selection
visit_all max_inline max_per_file [] s = s
visit_all max_inline max_per_file (c ∷ cs) s =
    visit_all max_inline max_per_file cs (visit max_inline max_per_file c s)

abbrev from_candidates : ℕ → ℕ → Option (List Candidate) → Option Selection
unfolding visit_all sort_by not_after
from_candidates max_inline max_per_file none = none
from_candidates max_inline max_per_file (some cs) =
    some (visit_all max_inline max_per_file (sort_by not_after cs) no_selection)

unfoldable pub select : List Finding → ℕ → ℕ → Option Selection
unfolding candidates from_candidates
select findings max_inline max_per_file =
    from_candidates max_inline max_per_file (candidates findings)
