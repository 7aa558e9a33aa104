-- ===== src/Publish/Recheck/Limit.antt =====
-- How many judgements a recheck asks for (reviewer/publish/recheck.py).
use code_reviewer.Prelude.{
  ℕ, ◌+◌, ◌≤◌, ◌<◌, max, ◌≡◌, inl, inr, Bool, true, false, Option, none, some, List, [], ◌∷◌, arith,
  leb, Bool-cases, length, select_if,
}
use code_reviewer.Findings.Models.{Finding}
use code_reviewer.Publish.Posting.{Discussion}
use code_reviewer.Publish.Recheck.{
  Verdict, triage, Judgement, says, fails, evaluate, after_judgement, judged_by, rule, is_resolving,
  is_judgeable, Judging, Delta,
}

-- The judgements that a thread uses: one at most, and none beyond the limit.
record Used (limit n m : ℕ) (judged : Bool) : Type 0 where
  from : n ≤ m
  most : m ≤ max limit n
  one : judged ≡ true → n < m

after_judgement-Used :
    (limit n : ℕ) (o : Option Verdict) (a : Judgement)
    → n < limit
    → Used limit n (after_judgement o a n).2 (after_judgement o a n).1
after_judgement-Used limit n o fails lt = record {
  from = omega arith;
  most = omega (arith, lt);
  one = λ h. omega arith;
}
after_judgement-Used limit n none (says w) lt = record {
  from = omega arith;
  most = omega (arith, lt);
  one = λ h. omega arith;
}
after_judgement-Used limit n (some v) (says w) lt = elim (Bool-cases (is_resolving w)) [
  | inl x ↦ rw x (record { from = omega arith; most = omega (arith, lt); one = λ h. omega arith })
  | inr x ↦ rw x (record { from = omega arith; most = omega (arith, lt); one = λ h. omega arith })
]

unused : (limit n : ℕ) → Used limit n n false
unused limit n = record {
  from = omega arith;
  most = omega arith;
  one = λ h. absurd (ground (arith, h));
}

judged_by-Used :
    (j : Judging) (f : Finding) (o : Option Verdict) (ask : Option (Finding → Judgement)) (n : ℕ)
    → Used j.limit n (judged_by j f o ask n).2 (judged_by j f o ask n).1
judged_by-Used j f o none n = unused j.limit n
judged_by-Used j f o (some ask) n = elim (Bool-cases (leb j.limit n)) [
  | inl x ↦ rw x (unused j.limit n)
  | inr x ↦ rw x (after_judgement-Used j.limit n o (ask f) (ground (arith, x)))
]

rule-Used :
    (j : Judging) (f : Finding) (o : Option Verdict) (n : ℕ)
    → Used j.limit n (rule j f o n).2 (rule j f o n).1
rule-Used j f o n = elim (Bool-cases (is_judgeable o)) [
  | inl x ↦ rw x (judged_by-Used j f o j.judge n)
  | inr x ↦ rw x (unused j.limit n)
]

-- x
pub evaluate_judged_bound :
    (j : Judging) (delta : Delta) (n : ℕ) (threads : List (Finding × Discussion))
    → length (select_if (λ v. v.judged) (evaluate j delta n threads)) + n ≤ max j.limit n
unfolding evaluate
evaluate_judged_bound j delta n [] = omega arith
evaluate_judged_bound j delta n ((f, d) ∷ threads) =
    let ruled = rule j f (triage j delta f).0 n in
    let u = rule-Used j f (triage j delta f).0 n in
    let rest = evaluate_judged_bound j delta ruled.2 threads in
    elim (Bool-cases ruled.1) [
      | inl x ↦ rw x (omega (arith, rest, u.from, u.most, u.one x))
      | inr x ↦ rw x (omega (arith, rest, u.from, u.most))
    ]
