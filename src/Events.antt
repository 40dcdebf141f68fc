-- ===== src/Events.antt =====
-- autoweave/events: the event log of each run, its replay from a cursor, and what is kept out of it.
pub mod Store
pub mod Replay
pub mod Redaction
pub mod Publish
pub mod Examples
