-- ===== src/Memory.antt =====
-- autoweave/memory: the memory of a project, in scopes.
pub mod Store
mod Examples
