-- ===== src/Runtime.antt =====
-- autoweave/local_runtime.py: how a run's tasks are dispatched.
pub mod Dispatch
mod Examples
