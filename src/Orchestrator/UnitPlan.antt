-- ===== src/Orchestrator/UnitPlan.antt =====
-- The order of the units of a review (`plan` of reviewer/orchestrator/unit_plan.py), on the units
-- that `partition` made; `path_of` is a unit's first path.
pub mod Laws
use code_reviewer.Prelude.{
  ℕ, zero, suc, ◌-◌, max, String, Bool, true, false, not, ◌&&◌, Option, none, some, List, [], ◌∷◌,
  ◌++◌, map, ltb, if◌then◌else◌, length, any, select_if, drop, get_elem?,
}
use code_reviewer.Prelude.Text.{Text, codes, text_eq, str_eq}
use code_reviewer.Prelude.Sorting.{sort_by}
use code_reviewer.Context.Diff.{DiffFile, Line, is_context}
use code_reviewer.Orchestrator.Streaming.{Dict, append_to}
use Prim.Native.String.{compare}
use Prim.Native.Nat.{lt, eq, gt}

abbrev str_le : String → String → Bool
str_le a b = elim (compare a b) [ lt ↦ true | eq ↦ true | gt ↦ false ]

-- `p.endswith(suffix)`.
abbrev ends_with : Text → Text → Bool
ends_with suffix s = text_eq (drop (length s - length suffix) s) suffix

abbrev suffixes : List Text
suffixes = map codes (".py" ∷ ".go" ∷ ".ts" ∷ ".tsx" ∷ ".js" ∷ ".jsx" ∷ [])

abbrev is_code : String → Bool
is_code path = any (λ suffix. ends_with suffix (codes path)) suffixes

-- `changed.get(p, 0)`: the changed lines of the last file with the path.
unfoldable pub changed : List DiffFile → String → ℕ
changed [] path = 0
changed (f ∷ fs) path =
    let rest = changed fs path in
    if any (λ g. str_eq g.path path) fs
    then rest
    else if str_eq f.path path
    then length (select_if (λ (l : Line). not (is_context l.kind)) f.lines)
    else 0

-- The key of the sort, with `-changed` compared the other way round.
abbrev pub path_le : List DiffFile → String → String → Bool
path_le files a b =
    let m = changed files a in
    let n = changed files b in
    if is_code a && not (is_code b)
    then true
    else if is_code b && not (is_code a)
    then false
    else if ltb n m
    then true
    else if ltb m n
    then false
    else str_le a b

module _ {ℓ} {A : Type ℓ} where
  -- `groups`, from the groups so far.
  unfoldable pub grouped : (A → String) → List A → Dict (List A) → Dict (List A)
  unfolding append_to
  grouped path_of [] groups = groups
  grouped path_of (u ∷ us) groups = grouped path_of us (append_to (path_of u) u groups)

  abbrev pub found : Option A → List A
  found none = []
  found (some u) = u ∷ []

  -- The units with one index in their groups, for the paths in their order.
  unfoldable pub round : ℕ → Dict (List A) → List A
  round part [] = []
  round part ((path, us) ∷ groups) = found (get_elem? us part) ++ round part groups

  -- The rounds before one.
  unfoldable pub rounds : ℕ → Dict (List A) → List A
  unfolding round
  rounds zero groups = []
  rounds (suc part) groups = rounds part groups ++ round part groups

  -- `max((len(v) for v in groups.values()), default=0)`.
  unfoldable pub longest : Dict (List A) → ℕ
  longest [] = 0
  longest ((path, us) ∷ groups) = max (length us) (longest groups)

  -- `plan`, without the set of all the ids.
  unfoldable pub plan : (A → String) → List DiffFile → List A → List A
  unfolding grouped longest rounds
  plan path_of files units =
      let groups = grouped path_of units [] in
      let paths = sort_by (λ g h. path_le files g.0 h.0) groups in rounds (longest groups) paths
