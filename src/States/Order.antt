-- ===== src/States/Order.antt =====
-- What the transition table (reviewer/orchestrator/states.py) implies: every legal step moves a
-- review forward, so the runs of the machine are bounded.
use code_reviewer.Prelude.{ℕ, ◌<◌, ◌≡◌, true, Option, none, some, arith}
use code_reviewer.States.{ReviewState, check_transition, order_index}

-- A terminal state counts as behind every entry of `ORDER`.
abbrev pub position : Option ℕ → ℕ
position none = 13
position (some i) = i

abbrev pub rank : ReviewState → ℕ
unfolding order_index
rank s = position (order_index s)

-- A legal transition goes forward in ORDER, where terminal states stand behind all its entries.
pub check_transition_forward :
    (old new : ReviewState) → check_transition old new ≡ true → rank old < rank new
unfolding check_transition order_index
check_transition_forward old new h = ground arith
