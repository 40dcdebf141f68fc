-- ===== src/Routing.antt =====
-- autoweave/routing/policy.py: which model profile a task attempt gets.
pub mod Policy
pub mod Bounds
pub mod Examples
