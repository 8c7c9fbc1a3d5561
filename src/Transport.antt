-- ===== src/Transport.antt =====
-- Sending and the socket (src/transport, src/ops/health.ts).
pub mod SendClass
pub mod Resilient
pub mod SentLog
pub mod Deliver
pub mod Content
pub mod RecentIds
pub mod WaVersion
pub mod Socket
pub mod Upsert
pub mod Outgoing
