-- ===== src/Stream.antt =====
-- The stream values: src/stream_type.rs, from the IDs to the consumer groups.
pub mod Id
pub mod Index
pub mod State
pub mod Ranges
pub mod Groups
pub mod Claim
pub mod Reading
pub mod Accounting
pub mod Pending
pub mod Snapshot
mod Tests
