-- ===== src/Storage.antt =====
-- autoweave/storage/repositories.py: the repository of workflow runs that is kept in memory.
pub mod Artifact
pub mod Repository
pub mod Examples
