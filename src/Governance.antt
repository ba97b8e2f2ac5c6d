-- ===== src/Governance.antt =====
-- The governance of a swarm's life: swarm/governance and the tables of swarm/registry that it uses.
pub mod Registry
pub mod Warnings
pub mod Tables
pub mod Guards
pub mod Lifecycle
