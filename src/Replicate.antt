-- ===== src/Replicate.antt =====
-- The replication server, internal/replicate: the wire formats, the stream's cursor and limits, the
-- stream loop and the snapshot generator.
pub mod Protocol
pub mod Cursor
pub mod Stream
pub mod Snapshot
