-- ===== src/Artifacts.antt =====
-- autoweave/artifacts/registry.py: artifacts, their versions and who may see them.
pub mod Registry
pub mod Examples
