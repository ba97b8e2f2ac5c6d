-- ===== src/Integration.antt =====
-- swarm/integration: requests for a capability of a provider, and the nodes that make them.
pub mod Contracts
pub mod Policy
pub mod Retry
pub mod Client
pub mod Nodes
