-- ===== src/Examples/Checked.antt =====
-- Examples for validation and page findings (reviewer/findings/validator.py and document.py).
use code_reviewer.Prelude.{◌≡◌, refl, ◌↔◌, true, false, none, some, [], ◌∷◌, if◌then◌else◌}
use code_reviewer.Prelude.Text.{codes, str_eq}
use code_reviewer.Findings.Models.{Finding, required, high, confirmed}
use code_reviewer.Findings.Pages.{
  locate_related, validate_in, tried, squash, occurs, locate, base?, Section, Passage,
  DocumentFinding, Corpus, proposed, validate as validate_page,
}
use code_reviewer.Findings.Validation.{
  valid_range, anchor_lines, Worktree, Change, validate as validate_code, added,
}
use code_reviewer.Examples.Sample.{ascii, claim_at}
use code_reviewer.Findings.Validation.Laws.{validate-discarded_iff, is_discarded, IsLineRange}
use code_reviewer.Findings.Pages.Laws.{In, validate-located}

abbrev tree : Worktree
tree = record {
  read_lines =
      λ file. if str_eq file "a.py" then some (codes "x = 1" ∷ codes "y = 2" ∷ []) else none;
  sha256_of = λ lines. "hash";
  resolves = λ file symbol. false;
  git = none;
}

abbrev change : Change
change = record {
  head_sha = "aaa";
  files = record { path = "a.py"; lines = record { new_line = some 1; kind = added } ∷ [] } ∷ [];
}

abbrev claim : Finding
claim = claim_at "correctness" "f1" 1

validate-discarded_example :
    (is_discarded (validate_code tree change [] claim).status ≡ false)
    ↔ IsLineRange (tree.read_lines "a.py") 1 1
validate-discarded_example = validate-discarded_iff tree change [] claim refl

introduced : (validate_code tree change [] claim).anchor.introduced_by_this_change ≡ true
unfolding validate_code anchor_lines valid_range
introduced = refl

abbrev passage : Passage
passage = record {
  page_id = "1";
  heading_path = codes "Goals";
  quote = codes "The service  restarts";
}

abbrev page_claim : DocumentFinding
page_claim = record {
  anchor = passage;
  category = "accuracy";
  severity_proposed = required;
  claim = codes "It does not restart";
  confidence = high;
  related = [];
  fingerprint = "p1";
  severity_final = none;
  validation = none;
  verification = some (record { counterargument = ""; reasoning = ""; verdict = confirmed });
  status = proposed;
}

abbrev goals : Section
goals = record {
  page_id = "1";
  heading_path = codes "Overview > Goals";
  body = codes "Note: the service restarts daily.";
}

abbrev corpus : Corpus
corpus = record { sections_for = λ page. goals ∷ []; subject_page_id = "1" }

located : (validate_page ascii corpus page_claim).1.valid ≡ true
unfolding validate_page validate_in base? locate locate_related tried occurs squash
located = refl

validate-located_example :
    (s : Section) × In s (goals ∷ [])
    × (str_eq s.page_id "1" ≡ true)
    × (occurs (squash ascii passage.quote) (squash ascii s.body) ≡ true)
    × ((validate_page ascii corpus page_claim).0.anchor.heading_path ≡ s.heading_path)
validate-located_example = validate-located ascii corpus page_claim located
