-- ===== src/Replicate/Stream/Log.antt =====
-- The changelog that the stream is read from: its entries are in the order of their ids, and XREAD
-- answers with the first ones after the cursor.
use wdxref.Base.{
  ℕ, ◌≡◌, refl, ap, ◌∙◌, true, List, [], ◌∷◌, ◌++◌, map, arith, Bytes, take, All, Bool-cases, inl,
  inr, if◌then◌else◌, ok,
}
use wdxref.Base.Int.{ℤ}
use wdxref.Store.Kvrocks.{StreamEntry}
use wdxref.Store.Events.{ChangeEvent, set_field, read_fields, event_of}
use wdxref.Replicate.Cursor.Order.{before, before_trans, before_irrefl, before_asym}
use wdxref.Replicate.Stream.{Round, last_id, Chunk}

abbrev pub Before : Bytes → List StreamEntry → Type 0
Before id = All (λ e. before id e.id ≡ true)

abbrev pub IsSorted : List StreamEntry → Type 0
IsSorted [] = Unit
IsSorted (e ∷ es) = Before e.id es × IsSorted es

-- The entries after a position.
unfoldable pub later : Bytes → List StreamEntry → List StreamEntry
later id [] = []
later id (e ∷ es) = let rest = later id es in if before id e.id then e ∷ rest else rest

-- A round in which XREAD answers from the log: the first entries after the cursor, at most `count`.
abbrev pub IsRead : List StreamEntry → Round → Type 0
IsRead log r =
    (cursor : Bytes) (count : ℕ) (block : ℤ) (es : List StreamEntry)
    → r.reply cursor count block ≡ ok es
    → es ≡ take count (later cursor log)

pub later-append :
    (id : Bytes) (xs ys : List StreamEntry) → later id (xs ++ ys) ≡ later id xs ++ later id ys
unfolding later
later-append id [] ys = refl
later-append id (x ∷ xs) ys = ground (arith, later-append id xs ys)

pub later-eq_self : (id : Bytes) (es : List StreamEntry) → Before id es → later id es ≡ es
unfolding later
later-eq_self id [] h = refl
later-eq_self id (e ∷ es) (h, hs) = rw (h, later-eq_self id es hs)

pub Before-trans :
    (a b : Bytes) (es : List StreamEntry) → before a b ≡ true → Before b es → Before a es
Before-trans a b [] h hs = tt
Before-trans a b (e ∷ es) h (k, hs) = (before_trans a b e.id h k, Before-trans a b es h hs)

later_head :
    (a id : Bytes) (es : List StreamEntry) (e : StreamEntry) (r : List StreamEntry)
    → Before a es
    → later id es ≡ e ∷ r
    → before a e.id ≡ true
unfolding later
later_head a id [] e r h eq = ground arith
later_head a id (x ∷ es) e r (h, hs) eq = elim (Bool-cases (before id x.id)) [
  | inl c ↦ cc (rw c at eq)
  | inr c ↦ later_head a id es e r hs (rw c at eq)
]

-- Behind the first entry after a position come the entries after that entry.
later_next :
    (log : List StreamEntry) (id : Bytes) (e : StreamEntry) (r : List StreamEntry)
    → IsSorted log
    → later id log ≡ e ∷ r
    → later e.id log ≡ r
unfolding later
later_next [] id e r h eq = ground arith
later_next (x ∷ log) id e r (h, hs) eq = elim (Bool-cases (before id x.id)) [
  | inl c ↦
      let step : (x ≡ e) × (later id log ≡ r) = ground (arith, rw c at eq) in
      let all : later id log ≡ log = later-eq_self id log (Before-trans id x.id log c h) in
      let own : later x.id (x ∷ log) ≡ log =
        rw (later, before_irrefl x.id) (later-eq_self x.id log h) in
      cc
  | inr c ↦
      let eq' : later id log ≡ e ∷ r = rw c at eq in
      let after = later_head x.id id log e r h eq' in
      rw (before_asym x.id e.id after) (later_next log id e r hs eq')
]

set_field_id : (k v : Bytes) (ev : ChangeEvent) → (set_field k v ev).id ≡ ev.id
unfolding set_field
set_field_id k v ev = ground arith

event_id : (fs : List (Bytes × Bytes)) (ev : ChangeEvent) → (read_fields fs ev).id ≡ ev.id
unfolding read_fields
event_id [] ev = refl
event_id ((k, v) ∷ fs) ev = event_id fs (set_field k v ev) ∙ set_field_id k v ev

pub event_of_id : (e : StreamEntry) → (event_of e).id ≡ e.id
unfolding event_of
event_of_id e = event_id e.fields _

-- After the events of a round, the cursor is where the entries read end.
pub later-last_id :
    (log : List StreamEntry) (id : Bytes) (es r : List StreamEntry)
    → IsSorted log
    → later id log ≡ es ++ r
    → later (last_id id (map event_of es)) log ≡ r
unfolding last_id
later-last_id log id [] r h eq = eq
later-last_id log id (e ∷ es) r h eq =
    rw (event_of_id e) (later-last_id log e.id es r h (later_next log id e (es ++ r) h eq))

-- The changes among what was written.
unfoldable pub changes : List Chunk → List ChangeEvent
changes [] = []
changes (Chunk.change ev ∷ chunks) = ev ∷ changes chunks
changes (Chunk.connected ∷ chunks) = changes chunks
changes (Chunk.keepalive ∷ chunks) = changes chunks
changes (Chunk.reset reason state ∷ chunks) = changes chunks

pub changes-append :
    (evs : List ChangeEvent) (chunks : List Chunk)
    → changes (map Chunk.change evs ++ chunks) ≡ evs ++ changes chunks
unfolding changes
changes-append [] chunks = refl
changes-append (ev ∷ evs) chunks = ap (◌∷◌ ev) (changes-append evs chunks)
