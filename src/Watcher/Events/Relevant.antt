-- ===== src/Watcher/Events/Relevant.antt =====
-- The items that are read from the text of a stream of events.
use wdxref.Base.{
  ◌≡◌, ◌≢◌, refl, ap, ◌∙◌, not, ◌&&◌, ◌⊎◌, inl, inr, Bool, true, false, Option, none, some, List,
  [], ◌∷◌, ◌++◌, Bytes, codes, beq, beq_iff, append-nil, Bool-cases, Option-cases, arith, ◌||◌,
}
use mathlib.Core.Path.{subst}
use wdxref.Base.Int.{ℤ, pos, negsuc}
use wdxref.Base.Strings.{has_prefix}
use wdxref.Watcher.Enqueue.{Item}
use wdxref.Watcher.Events.{
  EventJson, RecentChange, lines_read, relevant_title, extract_event, read_events, is_zero_ℤ,
  item_of, is_known, gap_at, extract_event_id_time,
}

-- An event as the server sends it: a line with its kind, its id, its payload, and an empty line.
pub record Sent : Type 0 where
  pub event_id : Bytes
  pub payload : Bytes

abbrev pub lines_of : List Sent → List Bytes
lines_of [] = []
lines_of (e ∷ es) =
    codes "event: message"
    ∷ (codes "id: " ++ e.event_id)
    ∷ (codes "data: " ++ e.payload)
    ∷ []
    ∷ lines_of es

-- A change of an item page of Wikidata: not a canary event, of the wiki wikidatawiki, in the namespace 0,
-- with a title that starts with Q.
pub record IsItemChange (c : RecentChange) : Type 0 where
  pub real : c.domain ≢ codes "canary"
  pub wikidata : c.wiki ≡ codes "wikidatawiki"
  pub main : c.namespace ≡ pos 0
  pub number : Bytes
  pub item : c.title ≡ b'Q' ∷ number

-- The items of the item changes among the events, in order.
pub data IsRelevant (json : EventJson) : List Sent → List Item → Type 0 where
  nothing : IsRelevant json [] []
  taken :
      (c : RecentChange) {e : Sent} {es : List Sent} {items : List Item}
      → json.change_of e.payload ≡ some c
      → IsItemChange c
      → IsRelevant json es items
      → IsRelevant json (e ∷ es) (record { qid = c.title; event_id = e.event_id } ∷ items)
  ignored :
      {e : Sent} {es : List Sent} {items : List Item}
      → ((c : RecentChange) → json.change_of e.payload ≡ some c → ¬ (IsItemChange c))
      → IsRelevant json es items
      → IsRelevant json (e ∷ es) items

is_zero-eq : (n : ℤ) → is_zero_ℤ n ≡ true → n ≡ pos 0
is_zero-eq (pos n) h = ap pos (ground arith)
is_zero-eq (negsuc n) h = absurd cc

q_prefix : (t : Bytes) → has_prefix t (codes "Q") ≡ true → (number : Bytes) × (t ≡ b'Q' ∷ number)
unfolding has_prefix
q_prefix [] h = absurd cc
q_prefix (b ∷ t) h = (t, ap (λ x. x ∷ t) (ground arith))

q_found : (number : Bytes) → has_prefix (b'Q' ∷ number) (codes "Q") ≡ true
unfolding has_prefix
q_found number = refl

differs : {b : Bool} → b ≡ false → b ≡ true → ⊥
differs h k = ground (arith, h, k)

-- The tests of an event: its title and the reasons to take it, or the empty text and one to ignore it.
title_cases :
    (c : RecentChange)
    → ((relevant_title c ≡ c.title) × IsItemChange c)
      ⊎ ((relevant_title c ≡ []) × (¬ (IsItemChange c)))
unfolding relevant_title
title_cases c = elim (Bool-cases (beq c.domain (codes "canary"))) [
  | inl canary ↦ inr (rw canary refl, λ h. h.real ((beq_iff c.domain (codes "canary")).0 canary))
  | inr real ↦ elim (Bool-cases (beq c.wiki (codes "wikidatawiki"))) [
    | inr other ↦ inr (
      rw (real, other) refl,
      λ h. differs other ((beq_iff c.wiki (codes "wikidatawiki")).1 h.wikidata),
    )
    | inl wiki ↦ elim (Bool-cases (is_zero_ℤ c.namespace)) [
      | inr talk ↦ inr (rw (real, wiki, talk) refl, λ h. differs talk (ap is_zero_ℤ h.main))
      | inl zero_space ↦ elim (Bool-cases (has_prefix c.title (codes "Q"))) [
        | inr no_item ↦ inr (
          rw (real, wiki, zero_space, no_item) refl,
          λ h. differs no_item (ap (λ t. has_prefix t (codes "Q")) h.item ∙ q_found h.number),
        )
        | inl item ↦
            let (number, shape) = q_prefix c.title item in
            inl (
              rw (real, wiki, zero_space, item) refl,
              record {
                real = λ same. differs real ((beq_iff c.domain (codes "canary")).1 same);
                wikidata = (beq_iff c.wiki (codes "wikidatawiki")).0 wiki;
                main = is_zero-eq c.namespace zero_space;
                number = number;
                item = shape;
              },
            )
      ]
    ]
  ]
]

module _ (json : EventJson) where
  handed_over :
      (e : Sent) (es : List Sent) (items : List Item)
      → IsRelevant json es items
      → IsRelevant json (e ∷ es) (item_of json (extract_event json e.payload) e.event_id ++ items)
  unfolding extract_event beq
  handed_over e es items h = elim (Option-cases (json.change_of e.payload)) [
    | inl unread ↦
        rw (unread, extract_event)
          (IsRelevant.ignored (λ c read. absurd (ground (arith, read, unread))) h)
    | inr (c, read) ↦ elim (title_cases c) [
      | inl (title, item) ↦
          rw (read, extract_event, title, item.item)
            (subst
              (λ t. IsRelevant json (e ∷ es) (record { qid = t; event_id = e.event_id } ∷ items))
              item.item (IsRelevant.taken c read item h))
      | inr (empty, other) ↦
          rw (read, extract_event, empty)
            (IsRelevant.ignored
              (λ d again same. other (subst IsItemChange (same_change read again) same)) h)
    ]
  ]
    where
      same_change : {c d : RecentChange} {o : Option RecentChange} → o ≡ some c → o ≡ some d → d ≡ c
      same_change h k = ground (arith, h, k)

  stays_checked :
      (since : Option ℤ) (checked known : Bool)
      → (checked ≡ true) ⊎ (since ≡ none)
      → ((checked || known) ≡ true) ⊎ (since ≡ none)
  stays_checked since checked known (inl h) = inl (ground (arith, h))
  stays_checked since checked known (inr h) = inr h

  no_gap :
      (since time : Option ℤ) (checked : Bool)
      → (checked ≡ true) ⊎ (since ≡ none)
      → (not checked && gap_at json since time) ≡ false
  no_gap since time checked (inl h) = rw h refl
  no_gap since time checked (inr h) = rw h (ground arith)

  -- Where the gap check refuses nothing, since it is done or no time is asked for, the loop over the text
  -- of a stream hands exactly the item changes to the writer, in order and each with the id of its event.
  pub read_events-IsRelevant :
      (since : Option ℤ) (es : List Sent) (last : Bytes) (checked : Bool)
      → (checked ≡ true) ⊎ (since ≡ none)
      → (items : List Item) × (read_events json since
            (lines_of es)
            (record { last_event_id = last; data_lines = []; gap_checked = checked })
          ≡ (items, lines_read))
        × IsRelevant json es items
  unfolding read_events has_prefix
  read_events-IsRelevant since [] last checked h = ([], refl, IsRelevant.nothing)
  read_events-IsRelevant since (e ∷ es) last checked h =
      let time = extract_event_id_time json e.event_id in
      let (items, run, rel) =
        read_events-IsRelevant since es e.event_id (checked || is_known json time)
          (stays_checked since checked (is_known json time) h) in
      (
        item_of json (extract_event json e.payload) e.event_id ++ items,
        rw (run, append-nil, no_gap since time checked h) refl,
        handed_over e es items rel,
      )
