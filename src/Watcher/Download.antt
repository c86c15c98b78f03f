-- ===== src/Watcher/Download.antt =====
-- resumableBody of internal/watcher/seed.go: the download of a dump over connections that may break.
-- `file` is the remote file of the ETag; a connection delivers its bytes from a position on. What
-- happens at each call of Read, and the reply to a resume request, are data. Durations are nanoseconds.
pub mod Resumed
pub mod Delivered
use wdxref.Base.{
  ℕ, zero, suc, ◌+◌, ◌*◌, ◌-◌, ◌≡◌, refl, Bool, true, false, ◌&&◌, ◌||◌, not, List, [], ◌∷◌, ◌++◌,
  Bytes, beq, ltb, ◌==◌, length, take, drop, if◌then◌else◌, Result, ok, err,
}
use wdxref.Watcher.Wikidata.{second, minute}

abbrev pub dump_resume_max_retries : ℕ
dump_resume_max_retries = 10

abbrev pub dump_resume_base_delay : ℕ
dump_resume_base_delay = 5 * second

abbrev pub dump_resume_max_delay : ℕ
dump_resume_max_delay = 2 * minute

-- The loop of dumpResumeRetryDelay, with as many rounds left.
unfoldable pub resume_delay_loop : ℕ → ℕ → ℕ
resume_delay_loop zero delay = delay
resume_delay_loop (suc rounds) delay =
    let rest = resume_delay_loop rounds (delay * 2) in
    if ltb dump_resume_max_delay (delay * 2) then dump_resume_max_delay else rest

-- dumpResumeRetryDelay
unfoldable pub dump_resume_retry_delay : ℕ → ℕ
unfolding resume_delay_loop
dump_resume_retry_delay retries = resume_delay_loop (retries - 1) dump_resume_base_delay

-- The reply to a resume request; the wait before it may be cancelled.
pub data Reconnect : Type 0 where
  wait_cancelled : Reconnect
  request_failed : Reconnect
  no_response : Reconnect
  responded : ℕ → Reconnect

-- What a call of Read on the connection gives: up to so many bytes, and no error, the end, or another
-- error.
pub data Arrival : Type 0 where
  arrived : ℕ → Arrival
  ended : ℕ → Arrival
  broken : ℕ → Reconnect → Arrival

pub data DownloadError : Type 0 where
  too_many_retries : DownloadError
  context_error : DownloadError
  create_request : DownloadError
  resume_request : DownloadError
  dump_changed : DownloadError
  range_unsupported : DownloadError
  bad_resume_status : ℕ → DownloadError
  connection_lost : DownloadError

-- resumableBody; `at` is the position of the connection in the file.
pub record ResumableBody : Type 0 where
  pub etag : Bytes
  pub offset : ℕ
  pub retries : ℕ
  pub at : ℕ

-- newResumableBody
abbrev pub new_resumable_body : Bytes → ResumableBody
new_resumable_body etag = record { etag = etag; offset = 0; retries = 0; at = 0 }

-- The switch on the status; a partial response starts at the offset that was asked for.
unfoldable pub resume_with : Reconnect → ResumableBody → Result DownloadError ResumableBody
resume_with wait_cancelled rb = err context_error
resume_with request_failed rb = err create_request
resume_with no_response rb = err resume_request
resume_with (responded status) rb =
    if status == 206
    then ok (record rb { at = rb.offset })
    else if status == 412 || (status == 416)
    then err dump_changed
    else if status == 200
    then err range_unsupported
    else err (bad_resume_status status)

-- reconnect; the result holds the body with its count of retries.
unfoldable pub reconnect :
    Reconnect → ResumableBody → Result DownloadError ResumableBody × ResumableBody
unfolding resume_with
reconnect reply rb =
    let counted = record rb { retries = rb.retries + 1 } in
    if ltb dump_resume_max_retries counted.retries
    then (err too_many_retries, counted)
    else (resume_with reply counted, counted)

-- How a call of Read ends.
pub data ReadEnd : Type 0 where
  more : ReadEnd
  end_of_file : ReadEnd
  failed : DownloadError → ReadEnd

-- The bytes of the connection that a call delivers.
abbrev pub chunk : Bytes → ℕ → ResumableBody → Bytes
chunk file n rb = take n (drop rb.at file)

-- The body behind these bytes.
abbrev pub advance : Bytes → ResumableBody → ResumableBody
advance p rb = record rb {
  offset = rb.offset + length p;
  at = rb.at + length p;
  retries = if length p == 0 then rb.retries else 0;
}

abbrev pub resumed : Result DownloadError ResumableBody × ResumableBody → ReadEnd × ResumableBody
resumed (ok next, rb) = (more, next)
resumed (err e, rb) = (failed e, rb)

-- Read: the bytes, how it ends, and the body after it.
unfoldable pub read : Bytes → Arrival → ResumableBody → Bytes × ReadEnd × ResumableBody
unfolding reconnect beq
read file (arrived n) rb = let p = chunk file n rb in (p, more, advance p rb)
read file (ended n) rb = let p = chunk file n rb in (p, end_of_file, advance p rb)
read file (broken n reply) rb =
    let p = chunk file n rb in
    let next = advance p rb in
    let (end, after) = resumed (reconnect reply next) in
    if beq rb.etag [] then (p, failed connection_lost, next) else (p, end, after)

abbrev pub read_on :
    (ResumableBody → Bytes × ReadEnd × ResumableBody)
    → Bytes × ReadEnd × ResumableBody
    → Bytes × ReadEnd × ResumableBody
read_on rest (p, more, next) = let (ps, end, final) = rest next in (p ++ ps, end, final)
read_on rest (p, end, next) = (p, end, next)

-- The caller's loop: it reads until an end, and passes all bytes on.
unfoldable pub read_all : Bytes → List Arrival → ResumableBody → Bytes × ReadEnd × ResumableBody
unfolding read
read_all file [] rb = ([], more, rb)
read_all file (a ∷ arrivals) rb = read_on (read_all file arrivals) (read file a rb)
