-- ===== src/Lib.antt =====
-- A verification library for wdxref, a cross-reference of Wikidata's external identifiers: a primary
-- follows Wikidata and stores each entity's mappings ("P<property>:<value>") in Kvrocks, with a reverse
-- index from values to entities; replicas copy the primary through snapshots and a stream of changes.
--
-- Parts, and the files that model them:
--   internal/store/writer.go   Store/Scripts: the Lua scripts `upsert` and `delete`, with the index steps
--                              add_idx and del_idx; Store/Words: the comma-separated lists of ids in the
--                              index; Store/Ids: QIDs and mapping entries; Store/Pipe: the pipe of
--                              operations with its sticky error, Exec, and recordFailedScript;
--                              Store/Failures: what that script keeps; Store/Queue: claimScript,
--                              RecoverProcessing, MigrateSchema, FlushData.
--   internal/store/reader.go   Store/Reader: lookups by property and by id, GetSyncState; Store/Events:
--                              the decoding of changelog entries in StreamRead.
--   internal/replicate         Replicate/Protocol: the lines of snapshots and the payload of changes
--                              (protocol.go); Replicate/Cursor and Replicate/Stream: compareStreamIDs,
--                              checkStreamGap, the options and ServeStream (stream.go);
--                              Replicate/Snapshot: generate, isSnapshotCurrent, ServeSnapshot
--                              (snapshot.go).
--   internal/replica/client.go Replica/Fetch: fetchSnapshot; Replica/Follow: connectStream;
--                              Replica/Sync: Run.
--   internal/httpencoding      Httpencoding: the choice of an encoding and the lists of encodings
--                              (encoding.go); Httpencoding/Middleware: the compressed writer
--                              (middleware.go).
--   internal/watcher           Watcher/Claims: extractExternalIDs and ParseEntityJSON, Watcher/Wikidata:
--                              FetchEntitiesRaw with the backoff on maxlag errors (wikidata.go);
--                              Watcher/Processor: ProcessEntities (processor.go); Watcher/Events: the
--                              events of a stream, Watcher/Enqueue: the background writer of
--                              connectAndProcess, Watcher/Drain: drainQueue and the settling of batches
--                              (eventstream.go); Watcher/Download: resumableBody, Watcher/Dump:
--                              processDumpStream, Watcher/Seed: NeedsSeed and Seed (seed.go).
--   internal/api/server.go     Api: the two lookups and the error replies.
--   cmd/wdxref/main.go         Command: the roles and the changelog's retention.
-- Base has the shared notation, lists, byte strings and results; Strconv is Go's strconv as far as it is
-- called; Tests has a server in memory on which the assumed laws hold, and runs at concrete inputs.
--
-- How the parts interact: scripts and pipes turn a database into another one and may fail; the changelog
-- that the scripts append to is what the stream reads; the text that the stream writes is what a replica
-- parses and turns into pipes again. Operations have the names of the Go functions in snake case; a text
-- is a list of bytes, an int64 an integer with its range as a hypothesis where it matters.
--
-- Parameters: `Kvrocks` is the server, with HashLaws, StreamLaws and SetLaws for the documented behaviour
-- of its commands; `MappingsJson` and `ControlJson` are the JSON encoders; time.ParseDuration, the JSON of
-- a reset, zstd's sizes and all replies of the network are arguments. A connection, a scan and the
-- replica's loop run over a list of rounds, pages or turns, which says how long they last: where a
-- theorem claims that something is finished, it names how many suffice.
-- `WikidataJson` and `ApiJson` are the JSON decoder, `Floats` is float64, and `Encoders` the encoders of
-- a response, in which every answer may depend on all calls before. `EventJson` decodes events. What
-- a select statement receives, and how a connection breaks, are lists.
--
-- Not modelled: the loop of Watch, the search for a dump, the throttle of the HTTP client, health and
-- statistics (internal/api, internal/store/reader.go), the primary's loop and the servers (cmd/wdxref),
-- the trimmer of the changelog; errors of the connection to the server and of the
-- file system, logging, and other HTTP headers; letters and white space beyond ASCII in encodings and
-- roles.
pub mod Base
pub mod Strconv
pub mod Store
pub mod Replicate
pub mod Replica
pub mod Httpencoding
pub mod Watcher
pub mod Api
pub mod Command
mod Tests
