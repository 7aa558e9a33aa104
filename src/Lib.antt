-- ===== src/Lib.antt =====
-- A verification library for the AI code reviewer (Python, reviewer/).
--
-- The service reviews GitLab merge requests and Confluence pages. A trigger is admitted by the store
-- as a review (reviewer/store/repositories.py), which moves through the states of
-- reviewer/orchestrator/states.py while a pipeline cuts the diff into units
-- (reviewer/context/partition.py), asks models for findings under a token budget, validates,
-- deduplicates, verifies and normalises these (reviewer/findings), lets a model lower severities
-- (reviewer/agents/severity_triage.py), decides (reviewer/decision/engine.py), selects what is shown
-- and publishes it (reviewer/publish); a later push rechecks what was published.
--
-- Files, and what they model:
--   Prelude       the shared names: lists, Boolean tests, integers, texts, sorting
--   States        orchestrator/states.py: ReviewState, TERMINAL, LEGAL, ORDER, check_transition
--   Store         store/repositories.py: Rows are the tables and queries, Admission is accept and
--                 accept_document, Lifecycle is transition, stop, mark_status, cancel and pending;
--                 Laws runs them as steps on a database
--   Findings      Models is findings/models.py; Policy is normalize of policy.py; Dedup is
--                 deduplicate of dedup.py; Selection is select of noise.py; Triage is
--                 agents/severity_triage.py; Validation is validate of validator.py; Pages is
--                 document.py, the same steps for findings about a page
--   Decision      decision/engine.py: decide and status
--   Orchestrator  Budget is the BudgetTracker of orchestrator/budget.py; Streaming is the FileStream
--                 of streaming.py; UnitPlan is plan of unit_plan.py; Stages is execute of
--                 stages.py, its workers as steps on the shared variables; Verification is
--                 verify_findings of verification.py with what verify of agents/verification.py
--                 writes into a finding; Analysis is prepare, established and settle in run of
--                 pipeline.py; Closing is advance, finish and the exceptions of run; Machine is the
--                 ReviewStateMachine of machine.py
--   Context       Diff, Partition and Chunks are render, hunk_lines, segments and file_chunks of
--                 context/partition.py
--   Access        accounts/policy.py: review_access and run_controls
--   Publish       Markers is FINGERPRINT and owns_body of publish/publisher.py, Posting the loop of
--                 Publisher.publish over the inline findings in applied mode, Summary its summary
--                 note, with every call that may raise; Recheck is publish/recheck.py, with recheck
--                 of orchestrator/pipeline.py; Commands is publish/commands.py
--   Rereview      publish/rereview.py: reanchor, follow, adopt_identities and full_review
--   Reasons       orchestrator/reasons.py: degradation and reasons
--   Examples      tests at concrete inputs, and the theorems at inputs that meet their hypotheses
--
-- A function that changes a row or an object takes the old value and returns the new one; each
-- transaction of the store is one function on the database, since the source runs it under a lock.
-- An exception is a constructor of the result. `uuid4()`, the clock, hashes, the worktree, git,
-- Unicode tables, the answers of the forge and of the models are arguments. Ids, paths and
-- categories are strings; a text that the program walks is a list of code points.
--
-- Numbers are natural where the source's cannot be negative, and a subtraction that could fall below
-- 0 is written out or is on integers (a counter of Streaming). Loops are structural recursion. Three
-- carry fuel: the digits of n have n + 1, `widen_high` has the largest line number of the scope, and
-- the loop of Machine has 5.
--
-- The workers of a stage run in any interleaving of their steps: a step is what a worker does from
-- one wait for the agent to the next. A discussion, a stored comment and a finding that the source
-- changes in place are found again by their ids.
--
-- Not modelled: the rest of the pipelines (collecting the context, snapshots, pages), drafts and the
-- text of the summary, the Markdown of comments, model agents and prompts, the HTTP
-- interface, the worker's queues, the clients of GitLab, Jira, Confluence and the model gateway,
-- accounts and credentials, migrations and the dashboard. They are I/O, formatting or libraries.
mod Prelude
pub mod States
pub mod Findings
pub mod Store
mod Examples
pub mod Decision
pub mod Orchestrator
pub mod Context
pub mod Access
pub mod Rereview
pub mod Reasons
pub mod Publish
