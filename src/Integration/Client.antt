-- ===== src/Integration/Client.antt =====
-- swarm/integration/acds_client.py: the client through which nodes reach the providers.
pub mod Attempts
pub mod Scoring
pub mod Requests
pub mod Traffic
pub mod Sorting
pub mod Ranking
pub mod Chain
pub mod Turns
pub mod Calls
pub mod Recording
pub mod Histories
