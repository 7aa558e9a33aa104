-- ===== src/Findings/Dedup.antt =====
-- Near-duplicate findings (reviewer/findings/dedup.py). What Python's `str.lower`, `unicodedata` and
-- `str.isspace` say of a character is the parameter `Unicode`.
pub mod Laws
use code_reviewer.Prelude.{
  ℕ, ◌+◌, ◌-◌, ◌*◌, Bool, true, false, not, ◌&&◌, ◌||◌, List, [], ◌∷◌, ◌++◌, ltb, leb, ◌==◌,
  if◌then◌else◌, length, any, select_if,
}
use code_reviewer.Prelude.Text.{Text, text_eq, str_eq}
use code_reviewer.Prelude.Sorting.{sort_by}
use code_reviewer.Findings.Models.{order, Finding, Evidence}

pub record Unicode : Type 0 where
  pub lower : Text → Text
  pub is_punctuation : ℕ → Bool
  pub is_digit : ℕ → Bool
  pub is_space : ℕ → Bool

-- `x in xs`, at texts.
abbrev pub text_mem : Text → List Text → Bool
text_mem x xs = any (λ y. text_eq y x) xs

-- `set(xs)`, in the order of the first occurrences from the right.
unfoldable pub as_set : List Text → List Text
as_set [] = []
as_set (x ∷ xs) = let rest = as_set xs in if text_mem x rest then rest else x ∷ rest

module _ (u : Unicode) where
  open u use {lower, is_punctuation, is_digit, is_space}

  -- `str.split()`: the runs of characters that are no space. The first argument is the word so far.
  unfoldable pub split_words : Text → Text → List Text
  split_words word [] = if text_eq word [] then [] else word ∷ []
  split_words word (c ∷ cs) =
      let cut = split_words [] cs in
      let grown = split_words (word ++ (c ∷ [])) cs in
      if is_space c then (if text_eq word [] then cut else word ∷ cut) else grown

  -- `" ".join(words)`.
  unfoldable pub join_words : List Text → Text
  join_words [] = []
  join_words (w ∷ []) = w
  join_words (w ∷ v ∷ ws) = w ++ (b' ' ∷ join_words (v ∷ ws))

  -- `normalize_claim`. Squeezing each run of spaces to one and stripping the ends is to split the
  -- text at its spaces and join the words by one space.
  unfoldable pub normalize_claim : Text → Text
  unfolding split_words join_words
  normalize_claim claim =
      join_words
        (split_words [] (select_if (λ c. not (is_punctuation c) && not (is_digit c)) (lower claim)))

  -- `set(normalize_claim(text).split())`.
  unfoldable pub claim_words : Text → List Text
  unfolding normalize_claim
  claim_words text = as_set (split_words [] (normalize_claim text))

  -- `similar`, at its default threshold of a half: `len(a & b) / len(a | b) >= 0.5`.
  unfoldable pub similar : Text → Text → Bool
  unfolding as_set claim_words
  similar first other =
      let a = claim_words first in
      let b = claim_words other in
      let shared = length (select_if (λ w. text_mem w b) a) in
      ltb 0 (length a) && (ltb 0 (length b) && leb (length a + length b - shared) (2 * shared))

  -- `related`.
  unfoldable pub related : ℕ → Finding → Finding → Bool
  unfolding similar
  related distance first other =
      str_eq first.anchor.file other.anchor.file
      && (str_eq first.category other.category
          && (leb
                ((first.anchor.line_start - other.anchor.line_start)
                  + (other.anchor.line_start - first.anchor.line_start))
                distance
              && ((leb first.anchor.line_start other.anchor.line_end
                    && leb other.anchor.line_start first.anchor.line_end)
                  || similar first.claim other.claim)))

-- `str.split(",")`. The first argument is the part so far.
split_commas : Text → Text → List Text
split_commas part [] = part ∷ []
split_commas part (c ∷ cs) =
    let cut = split_commas [] cs in
    let grown = split_commas (part ++ (c ∷ [])) cs in if c == b',' then part ∷ cut else grown

-- `",".join(parts)`.
join_commas : List Text → Text
join_commas [] = []
join_commas (p ∷ []) = p
join_commas (p ∷ q ∷ ps) = p ++ (b',' ∷ join_commas (q ∷ ps))

-- `a <= b` on strings, which compares code points from the left.
text_le : Text → Text → Bool
text_le [] t = true
text_le (a ∷ s) [] = false
text_le (a ∷ s) (b ∷ t) = let rest = text_le s t in if a == b then rest else ltb a b

-- The stages of both findings, sorted and joined.
unfoldable pub join_stages : Text → Text → Text
unfolding split_commas join_commas text_le as_set sort_by
join_stages first other =
    join_commas (sort_by text_le (as_set (split_commas [] first ++ split_commas [] other)))

-- Two citations with the same four fields.
abbrev pub same_evidence : Evidence → Evidence → Bool
same_evidence a b =
    str_eq a.file b.file
    && (a.line_start == b.line_start && (a.line_end == b.line_end && str_eq a.note b.note))

-- `combine`: the mutated `first`.
unfoldable pub combine : Finding → Finding → Finding
unfolding join_stages
combine first other = record first {
  severity_proposed =
      if ltb (order other.severity_proposed) (order first.severity_proposed)
      then other.severity_proposed
      else first.severity_proposed;
  evidence =
      first.evidence
      ++ select_if (λ e. not (any (λ s. same_evidence s e) first.evidence)) other.evidence;
  stage = join_stages first.stage other.stage;
}

-- The body of both loops: merge into the first kept finding that the test accepts, else keep.
unfoldable pub absorb : (Finding → Finding → Bool) → Finding → List Finding → List Finding
unfolding combine
absorb same f [] = f ∷ []
absorb same f (x ∷ xs) =
    let rest = absorb same f xs in if same x f then combine x f ∷ xs else x ∷ rest

unfoldable pub absorb_all : (Finding → Finding → Bool) → List Finding → List Finding → List Finding
unfolding absorb
absorb_all same kept [] = kept
absorb_all same kept (f ∷ fs) = absorb_all same (absorb same f kept) fs

-- The key of the dict `exact`, which keeps its first insertion order.
abbrev pub same_fingerprint : Finding → Finding → Bool
same_fingerprint x f = str_eq x.fingerprint f.fingerprint

-- `deduplicate`; the source's default distance is 10.
unfoldable pub deduplicate : Unicode → ℕ → List Finding → List Finding
unfolding absorb_all related
deduplicate u distance findings =
    absorb_all (related u distance) [] (absorb_all same_fingerprint [] findings)
