-- ===== src/Replica/Follow/Limit.antt =====
-- The lines of a stream under the limit of the scanner in connectStream (internal/replica/client.go).
use wdxref.Base.{◌<◌, Bytes, length}
use wdxref.Store.Kvrocks.{Kvrocks}
use wdxref.Replica.Follow.{stream_line_limit}

-- A line that the buffer holds.
abbrev IsShort : Bytes → Type 0
IsShort line = length line < stream_line_limit
