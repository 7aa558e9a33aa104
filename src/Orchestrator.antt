-- ===== src/Orchestrator.antt =====
-- The parts of reviewer/orchestrator: the token budget of a review, the workers of a stage, the early
-- start of per-file work, what a run makes of its findings, its end, and the no-op state machine.
pub mod Budget
pub mod Streaming
pub mod UnitPlan
pub mod Stages
pub mod Verification
pub mod Analysis
pub mod Closing
pub mod Machine
