-- ===== src/Coordination.antt =====
-- autoweave/storage/coordination.py: leases and idempotency windows, kept in memory. `now` is what
-- the clock answers during the call, in seconds, and a time to live is not negative.
pub mod Windows
pub mod Leases
pub mod Idempotency
pub mod Examples
