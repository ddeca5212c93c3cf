-- ===== src/Transport/RequestHeaders.antt =====
-- packages/online/src/transport/headers.ts: the headers that a request may carry. Lower case and the
-- URL parser are the platform's.
pub mod Sent
use linklint.Common.{
  Bool, List, Option, Text, [], any, codes, if◌then◌else◌, is_empty, length, ltb, none, not, some,
  text_eq, ℕ, ◌&&◌, ◌==◌, ◌||◌, ◌∷◌,
}

-- What the code reads of a `URL`; `href` is read after the hash is cleared.
pub record UrlObject : Type 0 where
  pub protocol : Text
  pub username : Text
  pub password : Text
  pub origin : Text
  pub hostname : Text
  pub host_text : Text
  pub port : Option ℕ
  pub href : Text

abbrev pub forwarded_request_headers : List Text
forwarded_request_headers = codes "accept" ∷ codes "accept-language" ∷ codes "user-agent" ∷ []

abbrev pub max_referer_length : ℕ
max_referer_length = 2048

-- `/[\0\r\n]/`
abbrev pub has_break : Text → Bool
has_break s = any (λ c. c == 0 || c == 13 || c == 10) s

-- `headers[name] = value` on an object, in the order of its keys.
unfoldable pub set_header : Text → Text → List (Text × Text) → List (Text × Text)
set_header name value [] = (name, value) ∷ []
set_header name value ((key, old) ∷ rest) =
    let more = set_header name value rest in
    if text_eq key name then (key, value) ∷ rest else (key, old) ∷ more

module _ (lower : Text → Text) where
  -- The loop over the caller's headers; a value that is no string is none.
  unfoldable pub forward : List (Text × Option Text) → List (Text × Text) → List (Text × Text)
  unfolding set_header
  forward [] headers = headers
  forward ((name, none) ∷ rest) headers = forward rest headers
  forward ((name, some value) ∷ rest) headers = forward rest (
      if any (text_eq (lower name)) forwarded_request_headers && not (has_break value)
      then set_header (lower name) value headers
      else headers)

  abbrev pub with_referer : Option Text → List (Text × Text) → List (Text × Text)
  with_referer none headers = headers
  with_referer (some referer) headers = set_header (codes "referer") referer headers

  unfoldable pub destination_headers :
      Text → List (Text × Option Text) → Option Text → List (Text × Text)
  unfolding forward
  destination_headers host_text input referer = with_referer referer (
      forward input
        ((codes "host", host_text) ∷ (codes "accept-encoding", codes "gzip, deflate, br") ∷ []))

module _ (parse_url : Text → Option UrlObject) where
  abbrev pub referer_of : UrlObject → Option UrlObject → Option Text
  referer_of destination none = none
  referer_of destination (some referer) =
      if not (text_eq referer.protocol (codes "http:"))
        && not (text_eq referer.protocol (codes "https:"))
      then none
      else if not (is_empty referer.username) || not (is_empty referer.password)
      then none
      else if not (text_eq referer.origin destination.origin)
      then none
      else if ltb max_referer_length (length referer.href) || has_break referer.href
      then none
      else some referer.href

  unfoldable pub same_origin_referer_value : UrlObject → Text → Option Text
  same_origin_referer_value destination candidate =
      if ltb max_referer_length (length candidate)
      then none
      else referer_of destination (parse_url candidate)
