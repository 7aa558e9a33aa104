-- ===== src/Prelude/Text.antt =====
-- Text two ways: the native `String`, for what the program only compares (ids, paths, categories),
-- and a list of code points, `Text`, for what it walks.
use Prim.Native.Nat.{ℕ}
use Prim.Native.Char.{code}
use Prim.Native.String.{String, ◌++◌}
use mathlib.Core.Path.{◌≡◌, refl, ap₂}
use native.Mathlib.Omega.{arith}
use mathlib.Core.Bool.{Bool, true, false, ◌&&◌, ◌||◌}
use mathlib.Core.List.{List, [], ◌∷◌}
use mathlib.Core.Option.{Option, none, some}
use code_reviewer.Prelude.Tests.{◌==◌ as nat_eq, &&_true, ==_iff}
use text.Mathlib.Text.{◌==◌}
use text.Mathlib.TextEquality.{eq_iff}
use text.Mathlib.TextPositions.{eq_refl}

abbrev pub Text : Type 0
Text = List ℕ

abbrev pub codes : String → Text
codes String.[] = []
codes (String.◌∷◌ c s) = code c ∷ codes s

-- `a == b` on texts.
abbrev pub text_eq : Text → Text → Bool
text_eq [] [] = true
text_eq (a ∷ s) (b ∷ t) = nat_eq a b && text_eq s t
text_eq _ _ = false

pub text_eq_refl : (s : Text) → text_eq s s ≡ true
text_eq_refl [] = refl
text_eq_refl (c ∷ s) = ground (arith, text_eq_refl s)

pub text_eq_sym : (s t : Text) → text_eq s t ≡ text_eq t s
text_eq_sym [] [] = refl
text_eq_sym [] (b ∷ t) = refl
text_eq_sym (a ∷ s) [] = refl
text_eq_sym (a ∷ s) (b ∷ t) = ground (arith, text_eq_sym s t)

pub eq_of_text_eq : (s t : Text) → text_eq s t ≡ true → s ≡ t
eq_of_text_eq [] [] h = refl
eq_of_text_eq [] (b ∷ t) h = ground (arith, h)
eq_of_text_eq (a ∷ s) [] h = ground (arith, h)
eq_of_text_eq (a ∷ s) (b ∷ t) h =
    let parts = &&_true (nat_eq a b) (text_eq s t) h in
    ap₂ (λ c cs. c ∷ cs) ((==_iff a b).0 parts.0) (eq_of_text_eq s t parts.1)

-- `a == b` on strings.
abbrev pub str_eq : String → String → Bool
str_eq a b = a == b

-- `a + b` on strings.
abbrev pub str_append : String → String → String
str_append a b = a ++ b

-- `x in xs`, at strings.
abbrev pub str_mem : String → List String → Bool
str_mem a [] = false
str_mem a (x ∷ xs) = str_eq x a || str_mem a xs

-- `a == b`, at `str | None`.
abbrev pub opt_str_eq : Option String → Option String → Bool
opt_str_eq none none = true
opt_str_eq (some a) (some b) = str_eq a b
opt_str_eq _ _ = false

pub str_eq_refl : (a : String) → str_eq a a ≡ true
str_eq_refl a = eq_refl a

pub eq_of_str_eq : (a b : String) → str_eq a b ≡ true → a ≡ b
eq_of_str_eq a b h = (eq_iff a b).0 h
