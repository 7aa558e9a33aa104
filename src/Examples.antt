-- ===== src/Examples.antt =====
-- Tests of the definitions at concrete inputs, and the theorems at inputs that meet their hypotheses.
mod States
mod Sample
mod Findings
mod Store
mod Orchestrator
mod Context
mod Access
mod Checked
mod Rereview
mod Machine
mod Publish
mod Stages
mod Recheck
mod Analysis
mod Closing
mod Commands
mod UnitPlan
