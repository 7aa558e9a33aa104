-- ===== src/Examples/Sample.antt =====
-- The findings that the examples share.
use code_reviewer.Prelude.{
  ℕ, ◌+◌, String, true, ◌&&◌, ◌||◌, none, some, [], ◌∷◌, map, ltb, leb, ◌==◌, if◌then◌else◌,
}
use code_reviewer.Prelude.Text.{codes}
use code_reviewer.Findings.Models.{
  Anchor, Evidence, Finding, local, high, required, confirmed, proposed,
}
use code_reviewer.Findings.Dedup.{Unicode}

abbrev pub anchor_at : String → ℕ → ℕ → Anchor
anchor_at file line_start line_end = record {
  file = file;
  line_start = line_start;
  line_end = line_end;
  symbol = none;
  commit_sha = "";
  context_hash = "";
  in_diff = true;
  introduced_by_this_change = true;
}

abbrev pub citation : String → ℕ → Evidence
citation file line = record { file = file; line_start = line; line_end = line; note = "" }

-- A confirmed claim in one file, of the given category, fingerprint and line.
abbrev pub claim_at : String → String → ℕ → Finding
claim_at category fingerprint line = record {
  anchor = anchor_at "a.py" line line;
  category = category;
  severity_proposed = required;
  claim = codes "Division by zero";
  reason = "";
  impact = "";
  impact_level = none;
  failure_scenario = none;
  evidence_scope = local;
  evidence = citation "a.py" line ∷ [];
  suggested_direction = "";
  confidence = high;
  id = fingerprint;
  fingerprint = fingerprint;
  stage = codes "defect_review";
  severity_final = none;
  validation = none;
  verification = some (record { counterargument = ""; reasoning = ""; verdict = confirmed });
  status = proposed;
  triage = none;
}

-- ASCII: lower case, and what is no letter, digit or space counts as punctuation.
abbrev pub ascii : Unicode
ascii = record {
  lower = map (λ c. if leb b'A' c && leb c b'Z' then c + 32 else c);
  is_punctuation = λ c. (ltb 32 c && ltb c b'0') || (ltb b'9' c && ltb c b'A');
  is_digit = λ c. leb b'0' c && leb c b'9';
  is_space = λ c. c == 32;
}
