-- ===== src/Examples.antt =====
-- Concrete inputs: instances of the libraries that the program calls, and runs of its parts.
pub mod Toys
mod Artifacts
mod Gates
mod Runs
mod Swarms
mod Providers
mod Exchange
mod Commands
