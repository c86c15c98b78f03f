-- ===== src/Tests/Http.antt =====
-- The theorems on content encodings at concrete inputs.
use wdxref.Base.{
  ◌≡◌, ◌≢◌, refl, Bool, true, false, none, some, List, [], ◌∷◌, Bytes, codes, beq, if◌then◌else◌,
  inl, inr, not,
}
use wdxref.Httpencoding.{Floats, gzip, default_encodings, accepts, preferred, accept_header}
use wdxref.Httpencoding.Negotiation.{first_common, preferred-accept_header}
use wdxref.Httpencoding.Middleware.{
  Encoders, HandlerCall, call_write_header, call_write, call_flush, middleware,
}
use wdxref.Httpencoding.Middleware.Responses.{response, middleware-response}
use wdxref.Httpencoding.Middleware.HeaderOnce.{headers_sent, middleware-header_once}

-- Numbers told apart by whether they are positive: "0" is not, and a letter is no number.
abbrev floats : Floats
floats = record {
  Float = Bool;
  parse_float = λ s. if beq s (codes "x") then none else some (not (beq s (codes "0")));
  zero_float = false;
  one_float = true;
  is_positive = λ b. b;
  positive-zero = refl;
  positive-one = refl;
}

abbrev encoders : Encoders
encoders = record { opens = λ log. true; encodes = λ log p. true; closes = λ log. true }

-- A wildcard accepts an encoding that the same header refuses.
refused_and_accepted :
    (accepts floats (codes "gzip;q=0, *" ∷ []) gzip ≡ true)
    × (accepts floats (codes "gzip;q=0" ∷ []) gzip ≡ false)
unfolding accepts
refused_and_accepted = (refl, refl)

preferred-accept_header_example :
    preferred floats (accept_header (some (gzip ∷ [])) ∷ []) (some default_encodings)
    ≡ first_common (gzip ∷ []) default_encodings
preferred-accept_header_example =
    preferred-accept_header floats (gzip ∷ []) default_encodings (inr refl, tt)
      (inl refl, (inr refl, tt))

abbrev page : List HandlerCall
page = call_write_header 404 ∷ call_write (codes "a") ∷ call_flush ∷ call_write (codes "b") ∷ []

abbrev wants_gzip : List Bytes
wants_gzip = codes "gzip" ∷ []

gzip_preferred : preferred floats wants_gzip none ≢ []
unfolding preferred
gzip_preferred h = cc

middleware-response_example :
    middleware floats encoders none true wants_gzip page
    ≡ response (preferred floats wants_gzip none) true 0 page
middleware-response_example =
    middleware-response floats encoders (λ log. refl) (λ log. refl) none true wants_gzip page
      gzip_preferred

middleware-header_once_example :
    headers_sent (middleware floats encoders none true wants_gzip page) ≡ 1
middleware-header_once_example =
    middleware-header_once floats encoders none true wants_gzip page gzip_preferred
