-- ===== src/Models.antt =====
-- autoweave/models.py: the enumerations, the records and their transitions.
mod States
mod Records
pub mod Transitions
pub use States.*
unfoldable pub use Records.*
