-- ===== src/Findings/Pages.antt =====
-- Findings about a page (reviewer/findings/document.py): anchored to a quoted passage.
pub mod Laws
use code_reviewer.Prelude.{
  ◌*◌, String, Bool, true, false, not, ◌&&◌, ◌||◌, Option, none, some, List, [], ◌∷◌, ◌++◌, ltb,
  leb, ◌==◌, if◌then◌else◌, length, select_if, next_of,
}
use code_reviewer.Prelude.Text.{Text, text_eq, str_eq, str_mem}
use code_reviewer.Findings.Models.{
  Severity, blocker, required, suggestion, nit, order, one_of, ◌is◌, Confidence, ValidationResult,
  VerificationResult, is_low, evidence_invalid, verdict_confirmed,
}
use code_reviewer.Findings.Dedup.{join_words, split_words, Unicode, claim_words, text_mem}

-- `DocumentAnchor` and `RelatedPassage`.
pub record Passage : Type 0 where
  pub page_id : String
  pub heading_path : Text
  pub quote : Text

pub data PageStatus : Type 0 where
  proposed validated verified downgraded discarded suppressed : PageStatus

pub record DocumentFinding : Type 0 where
  pub anchor : Passage
  pub category : String
  pub severity_proposed : Severity
  pub claim : Text
  pub confidence : Confidence
  pub related : List Passage
  pub fingerprint : String
  pub severity_final : Option Severity
  pub validation : Option ValidationResult
  pub verification : Option VerificationResult
  pub status : PageStatus

-- A section of a page, and the pages that the review read.
pub record Section : Type 0 where
  pub page_id : String
  pub heading_path : Text
  pub body : Text

pub record Corpus : Type 0 where
  pub sections_for : String → List Section
  pub subject_page_id : String

-- `BASE.get(category)`: none for a category that is not listed.
unfoldable pub base? : String → Option Severity
base? c =
    if str_mem c ("accuracy" ∷ "consistency" ∷ "security" ∷ [])
    then some required
    else if str_eq c "prompt_injection"
    then some blocker
    else if str_mem c ("completeness" ∷ "outdated" ∷ "clarity" ∷ "structure" ∷ [])
    then some suggestion
    else if str_mem c ("terminology" ∷ "style" ∷ [])
    then some nit
    else none

abbrev pub or_suggestion : Option Severity → Severity
or_suggestion none = suggestion
or_suggestion (some s) = s

abbrev pub is_listed : Option Severity → Bool
is_listed none = false
is_listed (some s) = true

abbrev pub is_verified : DocumentFinding → Bool
is_verified f = verdict_confirmed f.verification

abbrev pub is_closed : PageStatus → Bool
is_closed discarded = true
is_closed suppressed = true
is_closed _ = false

-- `a.startswith(b)` and `b in a`.
unfoldable pub starts_with : Text → Text → Bool
starts_with [] s = true
starts_with (c ∷ cs) [] = false
starts_with (c ∷ cs) (d ∷ s) = c == d && starts_with cs s

unfoldable pub occurs : Text → Text → Bool
unfolding starts_with
occurs needle [] = starts_with needle []
occurs needle (c ∷ s) = starts_with needle (c ∷ s) || occurs needle s

-- `squash(text)`: the words of the text, joined by one space, in lower case.
unfoldable pub squash : Unicode → Text → Text
unfolding split_words join_words
squash u text = u.lower (join_words u (split_words u [] text))

-- `named + [s for s in sections if s not in named]`: the sections under the named heading first.
unfoldable pub tried : Unicode → Passage → List Section → List Section
unfolding squash
tried u p sections =
    let named = λ (s : Section). text_eq (squash u s.heading_path) (squash u p.heading_path) in
    select_if named sections ++ select_if (λ s. not (named s)) sections

-- `locate`.
unfoldable pub locate : Unicode → Corpus → Passage → Option Section
unfolding tried occurs
locate u corpus p =
    let needle = squash u p.quote in
    next_of (λ s. occurs needle (squash u s.body)) (tried u p (corpus.sections_for p.page_id))

abbrev invalid : List String → ValidationResult
invalid reasons = record { valid = false; reasons = reasons; evidence_valid = false }

-- The loop over the related passages: those kept, with the heading corrected, and a reason for each
-- that was not found.
abbrev keep_found :
    Passage → Option Section → List Passage × List String → List Passage × List String
keep_found p none (kept, reasons) = (kept, "related passage not found" ∷ reasons)
keep_found p (some s) (kept, reasons) = (record p { heading_path = s.heading_path } ∷ kept, reasons)

unfoldable pub locate_related : Unicode → Corpus → List Passage → List Passage × List String
unfolding locate
locate_related u corpus [] = ([], [])
locate_related u corpus (p ∷ ps) = keep_found p (locate u corpus p) (locate_related u corpus ps)

-- `validate` once the section of the anchor is known.
unfoldable pub validate_in :
    Unicode
    → Corpus
    → List String
    → DocumentFinding
    → Option Section
    → DocumentFinding × ValidationResult
unfolding locate_related
validate_in u corpus reasons f none = (f, invalid ("quote not found on the page" ∷ []))
validate_in u corpus reasons f (some s) =
    let (kept, missing) = locate_related u corpus f.related in
    let g = record f {
      anchor = record f.anchor { heading_path = s.heading_path };
      related = kept;
    } in
    if not (str_eq s.page_id corpus.subject_page_id)
    then (f, invalid ("anchor is not on the reviewed page" ∷ []))
    else if str_eq f.category "consistency" && length kept == 0
    then (
      g,
      invalid (reasons ++ (missing ++ ("consistency claim without a located counterpart" ∷ []))),
    )
    else (g, record { valid = true; reasons = reasons ++ missing; evidence_valid = true })

-- `validate`: the mutated finding and the result. An unknown category becomes "clarity".
unfoldable pub validate : Unicode → Corpus → DocumentFinding → DocumentFinding × ValidationResult
validate u corpus f =
    if is_listed (base? f.category)
    then validate_in u corpus [] f (locate u corpus f.anchor)
    else validate_in u corpus ("unknown category normalised" ∷ [])
        (record f { category = "clarity" }) (locate u corpus f.anchor)

unfoldable pub needs_verification : DocumentFinding → Bool
needs_verification f =
    one_of (or_suggestion (base? f.category)) (blocker ∷ required ∷ [])
    || one_of f.severity_proposed (blocker ∷ required ∷ [])

-- The cap on a doubted claim, then the cap on blockers.
abbrev pub capped : Severity → Bool → Severity
capped severity doubted =
    let lowered =
      if doubted && one_of severity (blocker ∷ required ∷ []) then suggestion else severity in
    if lowered is blocker then suggestion else lowered

unfoldable pub normalize : DocumentFinding → DocumentFinding
unfolding needs_verification
normalize f =
    let doubted =
      (needs_verification f && not (is_verified f))
      || is_low f.confidence
      || evidence_invalid f.validation in
    if is_closed f.status
    then f
    else record f { severity_final = some (capped (or_suggestion (base? f.category)) doubted) }

-- The test of `deduplicate` on a kept finding and a new one: the same fingerprint, or one quoted
-- passage and category and `len(shared) >= max(3, 0.6 * len(words))`.
unfoldable pub duplicates : Unicode → DocumentFinding → DocumentFinding → Bool
unfolding squash claim_words
duplicates u other f =
    let words = claim_words u f.claim in
    let shared = length (select_if (λ x. text_mem x (claim_words u other.claim)) words) in
    str_eq other.fingerprint f.fingerprint
    || (str_eq other.anchor.page_id f.anchor.page_id
        && (text_eq (squash u other.anchor.quote) (squash u f.anchor.quote)
            && (str_eq other.category f.category
                && (leb 3 shared && leb (3 * length words) (5 * shared)))))

-- The kept duplicate takes the stronger of the two proposed severities.
abbrev pub strengthen : DocumentFinding → DocumentFinding → DocumentFinding
strengthen other f = record other {
  severity_proposed =
      if ltb (order f.severity_proposed) (order other.severity_proposed)
      then f.severity_proposed
      else other.severity_proposed;
}

unfoldable pub keep : Unicode → DocumentFinding → List DocumentFinding → List DocumentFinding
unfolding duplicates
keep u f [] = f ∷ []
keep u f (x ∷ xs) =
    let rest = keep u f xs in if duplicates u x f then strengthen x f ∷ xs else x ∷ rest

unfoldable pub keep_all :
    Unicode → List DocumentFinding → List DocumentFinding → List DocumentFinding
unfolding keep
keep_all u kept [] = kept
keep_all u kept (f ∷ fs) = keep_all u (keep u f kept) fs

unfoldable pub deduplicate : Unicode → List DocumentFinding → List DocumentFinding
unfolding keep_all
deduplicate u findings = keep_all u [] findings
