-- ===== src/Publish/Markers.antt =====
-- The markers in comments (reviewer/publish/publisher.py and renderer.py). A regular expression of
-- one fixed length is a list of classes; the search goes over the text once.
pub mod Laws
use code_reviewer.Prelude.{
  ℕ, zero, suc, Bool, true, false, ◌&&◌, ◌||◌, Option, none, some, List, [], ◌∷◌, ◌++◌, map, leb,
  ◌==◌, if◌then◌else◌, take, drop,
}
use code_reviewer.Prelude.Text.{Text, codes, text_eq}
use code_reviewer.Findings.Pages.{starts_with}

-- A character of a pattern: a letter, or `[a-f0-9]`.
pub data Class : Type 0 where
  literal : ℕ → Class
  hex : Class

abbrev pub is_hex : ℕ → Bool
is_hex c = (leb b'0' c && leb c b'9') || (leb b'a' c && leb c b'f')

abbrev pub accepts : Class → ℕ → Bool
accepts (literal d) c = d == c
accepts hex c = is_hex c

unfoldable pub matches : List Class → Text → Bool
matches [] s = true
matches (p ∷ ps) [] = false
matches (p ∷ ps) (c ∷ s) = accepts p c && matches ps s

unfoldable pub replicate {ℓ} : {A : Type ℓ} → ℕ → A → List A
replicate zero a = []
replicate (suc n) a = a ∷ replicate n a

abbrev pub opening : Text
opening = codes "<!-- ai-review:fingerprint="

abbrev pub closing : Text
closing = codes " -->"

-- `FINGERPRINT`.
unfoldable pub fingerprint_pattern : List Class
unfolding replicate
fingerprint_pattern = map literal opening ++ (replicate 32 hex ++ map literal closing)

-- `FINGERPRINT.findall(body)`, where the next `skip` characters belong to the match before.
unfoldable pub find_all : ℕ → Text → List Text
find_all skip [] = []
find_all (suc skip) (c ∷ s) = find_all skip s
find_all zero (c ∷ s) =
    let hit = take 32 (drop 27 (c ∷ s)) ∷ find_all 62 s in
    let rest = find_all zero s in if matches fingerprint_pattern (c ∷ s) then hit else rest

abbrev pub fingerprints_in : Text → List Text
fingerprints_in body = find_all 0 body

-- The marker that `render` ends with.
abbrev pub marker : Text → Text
marker fingerprint = opening ++ (fingerprint ++ closing)

abbrev owner_opening : Text
owner_opening = codes "<!-- ai-review:owner="

-- `[a-zA-Z0-9-]`.
abbrev is_owner_char : ℕ → Bool
is_owner_char c =
    (leb b'a' c && leb c b'z')
    || ((leb b'A' c && leb c b'Z') || ((leb b'0' c && leb c b'9') || c == b'-'))

-- The longest run of owner characters, and what follows it.
unfoldable pub owner_run : Text → Text × Text
owner_run [] = ([], [])
owner_run (c ∷ s) =
    let (run, rest) = owner_run s in if is_owner_char c then (c ∷ run, rest) else ([], c ∷ s)

abbrev closed_run : Text × Text → Option Text
closed_run ([], rest) = none
closed_run (c ∷ run, rest) = if starts_with closing rest then some (c ∷ run) else none

-- `re.search` of the owner's marker: the first match. The run is never followed by one of its own
-- characters, so no shorter run can be followed by " -->".
unfoldable pub owner_of : Text → Option Text
unfolding owner_run starts_with
owner_of [] = none
owner_of (c ∷ s) =
    let rest = owner_of s in
    let found = closed_run (owner_run (drop 21 (c ∷ s))) in
    if starts_with owner_opening (c ∷ s) then first_of found rest else rest
  where
    first_of : Option Text → Option Text → Option Text
    first_of none rest = rest
    first_of (some run) rest = some run

abbrev pub opt_text_eq : Option Text → Option Text → Bool
opt_text_eq none none = true
opt_text_eq (some s) (some t) = text_eq s t
opt_text_eq _ _ = false

-- `owns_body`: the owner of the client, none for the service's own.
unfoldable pub owns_body : Option Text → Text → Bool
unfolding owner_of
owns_body owner body = opt_text_eq (owner_of body) owner
