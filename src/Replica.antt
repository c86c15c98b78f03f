-- ===== src/Replica.antt =====
-- The replica client, internal/replica: the fetch of a snapshot, the stream of changes, and the loop
-- that alternates between them.
pub mod Fetch
pub mod Follow
pub mod Sync
