-- ===== src/Watcher/Dump/Lines.antt =====
-- The records that are read from the lines of a dump.
use wdxref.Base.{
  ℕ, ◌+◌, ◌≡◌, ◌≤◌, refl, sym, ap, ◌∙◌, false, List, [], ◌∷◌, ◌++◌, Bytes, codes, All, length, ltb,
  arith, append-nil, append_assoc, length-append, some,
}
use mathlib.Core.Path.{subst}
use wdxref.Base.Strings.{is_space, trim_left, trim_right, trim_space}
use wdxref.Store.Pipe.{EntityRecord}
use wdxref.Watcher.Claims.{WikidataJson}
use wdxref.Watcher.Dump.{
  cut_comma, entity_text, parsed_record, record_of_text, dump_records, dump_max_line_size,
}

-- An object as a dump writes it: between braces, and not too long with a comma behind it.
pub record IsObject (text : Bytes) : Type 0 where
  pub inner : Bytes
  pub braces : text ≡ b'{' ∷ inner ++ b'}' ∷ []
  pub short : length text + 1 ≤ dump_max_line_size

-- The lines of a dump: a bracket, the objects with a comma behind each but the last one, a bracket.
abbrev pub object_lines : List Bytes → List Bytes
object_lines [] = []
object_lines (o ∷ []) = o ∷ []
object_lines (o ∷ p ∷ os) = (o ++ b',' ∷ []) ∷ object_lines (p ∷ os)

abbrev pub dump_lines : List Bytes → List Bytes
dump_lines os = codes "[" ∷ object_lines os ++ codes "]" ∷ []

-- A text that ends in a byte that is no white space is kept by the trimming at its end.
trim_right_end : (s : Bytes) (c : ℕ) → is_space c ≡ false → trim_right (s ++ c ∷ []) ≡ s ++ c ∷ []
unfolding trim_right
trim_right_end [] c h = ground arith
trim_right_end (b ∷ []) c h = ground arith
trim_right_end (b ∷ x ∷ s) c h = rw (trim_right_end (x ∷ s) c h) refl

cut_comma_end : (s : Bytes) → cut_comma (s ++ b',' ∷ []) ≡ s
unfolding cut_comma
cut_comma_end [] = refl
cut_comma_end (b ∷ []) = refl
cut_comma_end (b ∷ c ∷ s) = ap (◌∷◌ b) (cut_comma_end (c ∷ s))

cut_comma_brace : (s : Bytes) → cut_comma (s ++ b'}' ∷ []) ≡ s ++ b'}' ∷ []
unfolding cut_comma
cut_comma_brace [] = refl
cut_comma_brace (b ∷ []) = refl
cut_comma_brace (b ∷ c ∷ s) = ap (◌∷◌ b) (cut_comma_brace (c ∷ s))

abbrev object : Bytes → Bytes
object inner = (b'{' ∷ inner) ++ b'}' ∷ []

not_long : (n : ℕ) → n ≤ dump_max_line_size → ltb dump_max_line_size n ≡ false
not_long n h = ground arith

object_last :
    (inner : Bytes)
    → length (object inner) + 1 ≤ dump_max_line_size
    → entity_text (trim_space (object inner)) ≡ some (object inner)
unfolding entity_text trim_left
object_last inner h =
    let trimmed = trim_right_end (b'{' ∷ inner) b'}' refl in
    let short = not_long (length (object inner)) (omega (arith, h)) in
    rw (trimmed, short) (ap some (cut_comma_brace (b'{' ∷ inner)))

object_comma :
    (inner : Bytes)
    → length (object inner) + 1 ≤ dump_max_line_size
    → entity_text (trim_space (object inner ++ b',' ∷ [])) ≡ some (object inner)
unfolding entity_text trim_left
object_comma inner h =
    let trimmed = trim_right_end (object inner) b',' refl in
    let short =
      not_long (length (object inner ++ b',' ∷ []))
        (omega (arith, h, length-append (object inner) (b',' ∷ []))) in
    rw (trimmed, short) (ap some (cut_comma_end (object inner)))

object_read : (o : Bytes) → IsObject o → entity_text (trim_space o) ≡ some o
object_read o h =
    let short = subst (λ t. length t + 1 ≤ dump_max_line_size) h.braces h.short in
    subst (λ t. entity_text (trim_space t) ≡ some t) (sym h.braces) (object_last h.inner short)

object_comma_read : (o : Bytes) → IsObject o → entity_text (trim_space (o ++ b',' ∷ [])) ≡ some o
object_comma_read o h =
    let short = subst (λ t. length t + 1 ≤ dump_max_line_size) h.braces h.short in
    subst (λ t. entity_text (trim_space (t ++ b',' ∷ [])) ≡ some t) (sym h.braces)
      (object_comma h.inner short)

module _ (json : WikidataJson) where
  -- The records of the objects that are parsed as items.
  abbrev pub records_of : List Bytes → List EntityRecord
  records_of [] = []
  records_of (o ∷ os) = parsed_record json o ++ records_of os

  records-object_lines :
      (os : List Bytes) (rest : List Bytes)
      → All IsObject os
      → dump_records json (object_lines os ++ rest) ≡ records_of os ++ dump_records json rest
  unfolding dump_records
  records-object_lines [] rest h = refl
  records-object_lines (o ∷ []) rest (h, _) =
      ap (λ text. record_of_text json text ++ dump_records json rest) (object_read o h)
      ∙ ap (λ recs. recs ++ dump_records json rest) (sym (append-nil (parsed_record json o)))
  records-object_lines (o ∷ p ∷ os) rest (h, hs) =
      ap (λ text. record_of_text json text ++ dump_records json (object_lines (p ∷ os) ++ rest))
        (object_comma_read o h)
      ∙ ap (λ recs. parsed_record json o ++ recs) (records-object_lines (p ∷ os) rest hs)
      ∙ sym (append_assoc (parsed_record json o) (records_of (p ∷ os)) (dump_records json rest))

  -- The lines of a dump, whose objects stand between braces and are not too long, give the records of
  -- exactly those objects that are parsed as items, in order.
  pub dump_records-dump_lines :
      (os : List Bytes) → All IsObject os → dump_records json (dump_lines os) ≡ records_of os
  unfolding dump_records trim_left trim_right entity_text
  dump_records-dump_lines os h =
      records-object_lines os (codes "]" ∷ []) h ∙ append-nil (records_of os)
