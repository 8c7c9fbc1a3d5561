-- ===== src/Orchestration.antt =====
-- src/orchestration: the conversation lane, from the inbox to the batches of a turn.
pub mod Debounce
pub mod Drain
pub mod Enqueue
pub mod Sweep
pub mod Ingest
pub mod TimeZone
