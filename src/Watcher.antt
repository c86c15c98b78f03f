-- ===== src/Watcher.antt =====
-- internal/watcher: the client of Wikidata, the processing of entities, the event stream and the
-- seeding from a dump.
pub mod Claims
pub mod Wikidata
pub mod Processor
pub mod Enqueue
pub mod Events
pub mod Drain
pub mod Download
pub mod Dump
pub mod Seed
