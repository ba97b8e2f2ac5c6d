-- ===== src/Runtime/Pipeline.antt =====
-- runtime/pipeline/runner.py: the seven stages from a proposal to a record in the ledger.
pub mod Stages
pub mod Trust
pub mod Outcomes
pub mod Runs
pub mod Refusals
