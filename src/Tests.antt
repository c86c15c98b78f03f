-- ===== src/Tests.antt =====
-- Tests: a small server in memory, on which the laws of the interfaces hold, and the theorems at
-- concrete inputs.
mod Server
mod Store
mod Stream
mod Reads
mod Fetch
mod Http
mod Watcher
mod Events
mod Seed
mod Protocol
