-- ===== src/ArgusHold.antt =====
-- swarm/argus_hold: the governed gateway of commands, and its hash-chained ledger.
pub mod Models
pub mod Policy
pub mod Scope
pub mod Bounds
pub mod Ledger
pub mod Chains
pub mod Tampering
pub mod Results
pub mod Endings
pub mod Dispatch
pub mod Conduct
pub mod Governed
