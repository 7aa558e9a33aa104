-- ===== src/Findings.antt =====
-- Findings, from the schema (reviewer/findings/models.py) through policy, triage, selection and
-- deduplication. Each child follows one file of the package.
pub mod Models
pub mod Policy
pub mod Selection
pub mod Triage
pub mod Dedup
pub mod Validation
pub mod Pages
