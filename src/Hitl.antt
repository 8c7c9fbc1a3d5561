-- ===== src/Hitl.antt =====
-- Human-in-the-loop approvals (src/hitl).
pub mod Value
pub mod Table
pub mod Binding
pub mod Resolve
pub mod Refine
pub mod Digest
pub mod Prompting
pub mod History
