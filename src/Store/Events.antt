-- ===== src/Store/Events.antt =====
-- Reading the changelog: StreamRead of internal/store/reader.go. The server's reply is taken as entries
-- with their fields in order, which is what the code digs out of the nested arrays.
use wdxref.Base.{◌≡◌, List, [], ◌∷◌, map, Bytes, codes, beq, if◌then◌else◌, Result, ok, err}
use wdxref.Base.Int.{ℤ, pos}
use wdxref.Strconv.{format_int, parse_int}
use wdxref.Strconv.RoundTrip.{parse_int-format_int, IsInt64}
use wdxref.Store.Kvrocks.{StreamEntry}
use wdxref.Store.Scripts.Consistent.{change}

-- ChangeEvent
pub record ChangeEvent : Type 0 where
  pub id : Bytes
  pub qid : ℤ
  pub raw_mappings : Bytes

-- A field of an entry; the error of ParseInt is dropped.
unfoldable pub set_field : Bytes → Bytes → ChangeEvent → ChangeEvent
set_field k v ev =
    if beq k (codes "q")
    then record ev { qid = (parse_int v).0 }
    else if beq k (codes "m")
    then record ev { raw_mappings = v }
    else ev

-- The loop over the fields: a later field overrides an earlier one.
unfoldable pub read_fields : List (Bytes × Bytes) → ChangeEvent → ChangeEvent
read_fields [] ev = ev
read_fields ((k, v) ∷ fs) ev = read_fields fs (set_field k v ev)

unfoldable pub event_of : StreamEntry → ChangeEvent
event_of e = read_fields e.fields (record { id = e.id; qid = pos 0; raw_mappings = [] })

-- StreamRead, behind the reply of XREAD: an error, or the entries (none after a timeout).
unfoldable pub stream_read {ℓ} :
    {E : Type ℓ} → Result E (List StreamEntry) → Result E (List ChangeEvent)
stream_read (err e) = err e
stream_read (ok es) = ok (map event_of es)

-- The event of an entry that a script appended is the change that the script recorded.
pub event_of-change :
    (id : Bytes) (q : ℤ) (m : Bytes)
    → IsInt64 q
    → event_of (record { id = id; fields = change (format_int q) m })
      ≡ record { id = id; qid = q; raw_mappings = m }
unfolding event_of read_fields set_field beq
event_of-change id q m h = rw (parse_int-format_int q h)
