-- ===== src/Examples/Rereview.antt =====
-- Examples for re-review (reviewer/publish/rereview.py).
use code_reviewer.Prelude.{
  ◌≡◌, refl, ap, Bool, true, false, none, some, List, [], ◌∷◌, map, arith, ◌==◌, if◌then◌else◌, all,
}
use code_reviewer.Prelude.Text.{Text, codes, str_eq}
use code_reviewer.Rereview.Adoption.{adopt_identities-Distinct, Distinct}
use code_reviewer.Store.Rows.{update_first}
use code_reviewer.Findings.Models.{Finding}
use code_reviewer.Findings.Validation.{Worktree, slice, valid_range}
use code_reviewer.Rereview.{
  changed_file, takes_over, adopt_one, adopt_all, find_window, adopt_identities, reanchor, moved,
}
use code_reviewer.Examples.Sample.{anchor_at, claim_at}
use code_reviewer.Rereview.Laws.{kept, reanchor_sound}

abbrev starts_x : Text → Bool
starts_x [] = false
starts_x (c ∷ cs) = c == b'x'

-- A line was added before the claim's; the hash of a snippet tells its first character.
abbrev tree : Worktree
tree = record {
  read_lines = λ file. some (codes "import os" ∷ codes "x = 1" ∷ []);
  sha256_of = λ lines. if all starts_x lines then "x" else "other";
  resolves = λ file symbol. false;
  git = none;
}

abbrev old_claim : Finding
old_claim = record (claim_at "correctness" "f1" 1) {
  anchor = record (anchor_at "a.py" 1 1) { context_hash = "x" };
}

abbrev moved_claim : Finding
moved_claim = record old_claim { anchor = record old_claim.anchor { line_start = 2; line_end = 2 } }

claim_moved : reanchor tree old_claim ≡ moved moved_claim
unfolding reanchor find_window
claim_moved = refl

reanchor_sound_example :
    let lines = tree.read_lines "a.py" in
    (valid_range lines 2 2 ≡ true) × (str_eq (tree.sha256_of (slice lines 2 2)) "x" ≡ true)
reanchor_sound_example =
    reanchor_sound tree old_claim moved_claim (omega arith) (ap kept claim_moved)

-- The same defect, worded differently on the next push.
abbrev fresh : List Finding
fresh = claim_at "correctness" "f2" 3 ∷ claim_at "correctness" "f3" 9 ∷ []

adopted :
    map (λ f. f.fingerprint) (adopt_identities fresh (old_claim ∷ []) tree [] 3) ≡ "f1" ∷ "f3" ∷ []
unfolding adopt_identities adopt_all adopt_one takes_over update_first changed_file reanchor
    find_window
adopted = refl

adopt_identities-Distinct_example : Distinct (adopt_identities fresh (old_claim ∷ []) tree [] 3)
adopt_identities-Distinct_example =
    adopt_identities-Distinct fresh (old_claim ∷ []) tree [] 3 (refl, (refl, tt))
