-- ===== src/Runtime/Executor.antt =====
-- runtime/executor/executor.py: running the steps of a plan under the tool gate. A fault of the gate
-- ends the run.
pub mod Steps
pub mod Loops
pub mod Containment
pub mod Halting
pub mod Status
pub mod Total
