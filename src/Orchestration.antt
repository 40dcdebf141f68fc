-- ===== src/Orchestration.antt =====
-- autoweave/orchestration: the state of a workflow run and the operations on it.
pub mod Graph
pub mod State
pub mod Tasks
pub mod Attempts
pub mod Requests
pub mod Scheduler
pub mod Service
pub mod Samples
pub mod Steps
pub mod Safety
mod Examples
pub mod Outcomes
pub mod Progress
