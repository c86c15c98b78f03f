-- ===== src/Httpencoding.antt =====
-- internal/httpencoding/encoding.go: which content encodings a request accepts, and the choice among
-- them. strconv.ParseFloat and the order of its numbers are `Floats`; letters and white space are those
-- of ASCII.
pub mod Negotiation
pub mod Middleware
use wdxref.Base.{
  ℕ, ◌≡◌, refl, Bool, true, false, ◌||◌, Option, none, some, List, [], ◌∷◌, Bytes, codes, beq,
  if◌then◌else◌,
}
use wdxref.Base.Strings.{split, join, cut, trim_left, trim_right, trim_space, to_lower}

-- What the code uses of float64.
pub record Floats : Type 1 where
  pub Float : Type 0
  pub parse_float : Bytes → Option Float
  pub zero_float : Float
  pub one_float : Float
  pub is_positive : Float → Bool
  pub positive-zero : is_positive zero_float ≡ false
  pub positive-one : is_positive one_float ≡ true

abbrev pub zstd : Bytes
zstd = codes "zstd"

abbrev pub gzip : Bytes
gzip = codes "gzip"

-- DefaultEncodings. A list of encodings is optional: nil is `none`.
abbrev pub default_encodings : List Bytes
default_encodings = zstd ∷ gzip ∷ []

module _ (f : Floats) where
  -- The loop over the parameters of one element: the first `q` decides.
  unfoldable pub quality_of : List Bytes → f.Float
  unfolding beq cut trim_left trim_right
  quality_of [] = f.one_float
  quality_of (param ∷ params) =
      let rest = quality_of params in
      let (key, raw_value, found) = cut b'=' (trim_space param) in
      let parsed : f.Float = elim (f.parse_float (trim_space raw_value)) [
        | none ↦ f.zero_float
        | some q ↦ q
      ] in
      if found then if beq (to_lower key) (codes "q") then parsed else rest else rest

  -- The body of the loop over the elements of one value: whether this element accepts the target.
  unfoldable pub part_accepts : Bytes → Bytes → Bool
  unfolding beq cut split trim_left trim_right quality_of
  part_accepts target part =
      let element = trim_space part in
      let (name, params, found) = cut b';' element in
      let name = to_lower (trim_space name) in
      if beq element []
      then false
      else if beq name target || beq name (codes "*")
      then f.is_positive (quality_of (split b';' params))
      else false

  unfoldable pub parts_accept : Bytes → List Bytes → Bool
  unfolding part_accepts
  parts_accept target [] = false
  parts_accept target (part ∷ parts) = part_accepts target part || parts_accept target parts

  -- Accepts; the target is in lower case here.
  unfoldable pub values_accept : Bytes → List Bytes → Bool
  unfolding split parts_accept
  values_accept target [] = false
  values_accept target (value ∷ values) =
      parts_accept target (split b',' value) || values_accept target values

  unfoldable pub accepts : List Bytes → Bytes → Bool
  unfolding values_accept
  accepts values target = values_accept (to_lower target) values

  first_accepted : List Bytes → List Bytes → Bytes
  unfolding accepts
  first_accepted values [] = []
  first_accepted values (enc ∷ encs) =
      let rest = first_accepted values encs in if accepts values enc then enc else rest

  -- Preferred
  unfoldable pub preferred : List Bytes → Option (List Bytes) → Bytes
  unfolding first_accepted
  preferred values none = first_accepted values default_encodings
  preferred values (some allowed) = first_accepted values allowed

-- The loop of ParseEncodings over the parts.
unfoldable pub recognised : List Bytes → List Bytes
unfolding beq trim_left trim_right
recognised [] = []
recognised (part ∷ parts) =
    let rest = recognised parts in
    let enc = trim_space (to_lower part) in
    if beq enc zstd || beq enc gzip then enc ∷ rest else rest

-- ParseEncodings
unfoldable pub parse_encodings : Bytes → Option (List Bytes)
unfolding split recognised
parse_encodings [] = none
parse_encodings (b ∷ s) = some (recognised (split b',' (b ∷ s)))

-- AcceptHeader
unfoldable pub accept_header : Option (List Bytes) → Bytes
unfolding join
accept_header none = join (codes ", ") default_encodings
accept_header (some encodings) = join (codes ", ") encodings

accept_header_runs : accept_header none ≡ codes "zstd, gzip"
unfolding accept_header
accept_header_runs = refl

parse_encodings_runs : parse_encodings (codes "br, ZSTD ,gzip") ≡ some default_encodings
unfolding parse_encodings
parse_encodings_runs = refl
