-- ===== src/Replica/Sync.antt =====
-- Run of internal/replica/client.go: the loop over snapshots and connections. What the upstream answers
-- in each turn is data; the delays are only named.
use wdxref.Base.{
  ℕ, Bool, Option, none, some, List, [], ◌∷◌, Bytes, codes, if◌then◌else◌, Result, ok, err,
}
use wdxref.Store.Kvrocks.{Kvrocks}
use wdxref.Store.Scripts.{meta_key}
use wdxref.Replicate.Protocol.{ControlJson}
use wdxref.Replica.Fetch.{FetchError, Resume, SnapshotResponse, fetch_snapshot}
use wdxref.Replica.Follow.{StreamEnd, StreamResponse, connect_stream, upstream_seeding, was_reset}

-- A turn: whether the context is done at its begin, after a failed fetch or after the connection, and
-- the upstream's replies.
pub record Turn : Type 0 where
  pub done_before : Bool
  pub done_after : Bool
  pub snapshot : Resume → Option SnapshotResponse
  pub stream : Bytes → Option StreamResponse

-- The waits, in seconds.
unfoldable pub wait_after : StreamEnd → ℕ
wait_after upstream_seeding = 30
wait_after was_reset = 0
wait_after _ = 1

-- What one turn did: it left the loop, failed to fetch, or connected at a position.
pub data Outcome : Type 0 where
  stopped fetch_failed : Outcome
  connected : Bytes → StreamEnd → Outcome

module _ (s : Kvrocks) (j : ControlJson) (version : Bytes) (state_of : Bytes → Bytes) where
  open s use {Db, hget}

  -- GetSyncState
  unfoldable pub get_sync_state : Bytes → Db → Bytes
  get_sync_state key db = elim (hget db meta_key key) [ none ↦ [] | some v ↦ v ]

  connect : Turn → Bytes → Db → Outcome × Db
  connect t since db =
      let (end, db') = connect_stream s version state_of t.stream since db in
      (connected since end, db')

  after_fetch : Turn → Result FetchError Bytes × Db → Outcome × Db
  unfolding connect
  after_fetch t (err e, db) = (if t.done_after then stopped else fetch_failed, db)
  after_fetch t (ok id, db) = connect t id db

  from_position : Turn → Bytes → Db → Outcome × Db
  unfolding connect after_fetch
  from_position t [] db = after_fetch t (fetch_snapshot s j version t.snapshot db)
  from_position t (c ∷ last) db = connect t (c ∷ last) db

  unfoldable pub run_turn : Turn → Db → Outcome × Db
  unfolding from_position
  run_turn t db =
      if t.done_before
      then (stopped, db)
      else from_position t (get_sync_state (codes "last_replicated_id") db) db

  -- The loop: one outcome for each turn, until the context is done.
  unfoldable pub run : List Turn → Db → List Outcome × Db
  run [] db = ([], db)
  run (t ∷ ts) db =
      let (outcome, db') = run_turn t db in
      let (outcomes, db'') = run ts db' in
      elim outcome [
        | stopped ↦ (stopped ∷ [], db')
        | fetch_failed ↦ (fetch_failed ∷ outcomes, db'')
        | connected since end ↦
            if t.done_after
            then (connected since end ∷ [], db')
            else (connected since end ∷ outcomes, db'')
      ]
