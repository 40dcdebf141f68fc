-- ===== src/Workflows.antt =====
-- autoweave/workflows/spec.py: workflow definitions, their checks and the graphs that they become.
pub mod Definition
pub mod Cycles
pub mod Compile
pub mod Notifications
pub mod Examples
