-- ===== src/Sync.antt =====
-- The sync stream: control-plane/src/domains/sync.
pub mod WriteQueue
pub mod LastEventId
pub mod EventLog
pub mod Cursors
pub mod Registry
pub mod Frames
pub mod Session
