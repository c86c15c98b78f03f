-- ===== src/Store.antt =====
-- The store, internal/store: the Lua scripts, the pipe that queues them, the work queue and the reads.
pub mod Kvrocks
pub mod Words
pub mod Scripts
pub mod Ids
pub mod Pipe
pub mod Events
pub mod Failures
pub mod Queue
pub mod Reader
