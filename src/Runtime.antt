-- ===== src/Runtime.antt =====
-- The sovereign runtime (process-swarm-gen2/runtime): validation, compilation, leases, gates,
-- execution and the pipeline that runs them.
pub mod Paths
pub mod Faults
pub mod Artifacts
pub mod Signer
pub mod Clock
pub mod Lease
pub mod ToolGate
pub mod ExecutionGate
pub mod Validator
pub mod Compiler
pub mod Executor
pub mod Ledger
pub mod Pipeline
pub mod Exchange
