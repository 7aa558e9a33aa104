-- ===== src/Context/Diff.antt =====
-- The parsed diff of a file (reviewer/context/models.py), and how a line of it is displayed
-- (reviewer/context/partition.py).
use code_reviewer.Prelude.{
  ℕ, zero, suc, ◌+◌, ◌-◌, ◌/◌, ◌%◌, String, Bool, true, false, Option, none, some, List, [], ◌∷◌,
  ◌++◌, ltb, if◌then◌else◌, length,
}
use code_reviewer.Prelude.Text.{Text}

pub data Kind : Type 0 where
  added removed context : Kind

pub record Line : Type 0 where
  pub text : Text
  pub old_line : Option ℕ
  pub new_line : Option ℕ
  pub kind : Kind

-- `old_lines or 0` and `new_lines or 0` are taken where the hunk is read.
pub record Hunk : Type 0 where
  pub old_start : Option ℕ
  pub old_lines : Option ℕ
  pub new_start : Option ℕ
  pub new_lines : Option ℕ

-- `scope` is a dict, by line number, and `symbol_ranges` a list of pairs.
pub record DiffFile : Type 0 where
  pub path : String
  pub old_path : Option String
  pub hunks : List Hunk
  pub symbol_ranges : List (ℕ × ℕ)
  pub lines : List Line
  pub scope : List (ℕ × Text)

abbrev pub is_added : Kind → Bool
is_added added = true
is_added _ = false

abbrev pub is_removed : Kind → Bool
is_removed removed = true
is_removed _ = false

abbrev pub is_context : Kind → Bool
is_context context = true
is_context _ = false

-- `str(n)`, for a number below `10 ^ fuel`.
digits_on : ℕ → ℕ → Text
digits_on zero n = []
digits_on (suc fuel) n =
    let rest = digits_on fuel (n / 10) in
    if ltb n 10 then (48 + n) ∷ [] else rest ++ ((48 + n % 10) ∷ [])

-- A number is below `10 ^ (n + 1)`.
unfoldable pub digits : ℕ → Text
unfolding digits_on
digits n = digits_on (suc n) n

unfoldable pub spaces : ℕ → Text
spaces zero = []
spaces (suc n) = 32 ∷ spaces n

-- `f"{s:>5}"`.
unfoldable pub right_5 : Text → Text
unfolding spaces
right_5 s = spaces (5 - length s) ++ s

-- `SIGN`.
abbrev pub sign : Kind → ℕ
sign added = 43
sign removed = 45
sign context = 32

abbrev pub number : Option ℕ → Text
number none = []
number (some n) = digits n

-- `render`.
unfoldable pub render : Line → Text
unfolding right_5 digits
render l = right_5 (number l.new_line) ++ (32 ∷ sign l.kind ∷ 32 ∷ l.text)

-- The bytes of a code point in UTF-8.
abbrev pub utf8_width : ℕ → ℕ
utf8_width c = if ltb c 128 then 1 else if ltb c 2048 then 2 else if ltb c 65536 then 3 else 4

-- `len(text.encode())`.
unfoldable pub byte_length : Text → ℕ
byte_length [] = 0
byte_length (c ∷ s) = utf8_width c + byte_length s

-- `"\n".join(lines)`.
unfoldable pub join_lines : List Text → Text
join_lines [] = []
join_lines (s ∷ []) = s
join_lines (s ∷ t ∷ ss) = s ++ (10 ∷ join_lines (t ∷ ss))

-- The `size` of `file_chunks`.
unfoldable pub size : List Text → ℕ
unfolding byte_length join_lines
size lines = byte_length (join_lines lines)
