-- ===== src/Redirect/Transition.antt =====
-- `transitionFor` of packages/online/src/resolution/redirect-chain.ts, and what it guarantees of a
-- target that is followed.
pub mod Targets
use linklint.Common.{
  Bool, List, Option, Text, [], codes, drop_last, drop_while, ends_in, if◌then◌else◌, is_digit,
  is_space, length, ltb, none, not, some, text_eq, trim, ℕ, ◌&&◌, ◌++◌, ◌+◌, ◌==◌, ◌||◌, ◌∷◌,
}
use linklint.Redirect.{
  Environment, RefreshPolicy, Response, TransitionDecision, TransitionKind, TransportMethod, Url,
  failure, follow, get, head, html_meta_refresh, http_redirect, http_refresh, max_chain_url_length,
  skipped, stop, terminal,
}

pub data SingleHeader : Type 0 where
  missing ambiguous : SingleHeader
  value : Text → SingleHeader

single_value : List Text → SingleHeader
single_value [] = missing
single_value (v ∷ []) = if text_eq (trim v) [] then ambiguous else value (trim v)
single_value (v ∷ w ∷ vs) = ambiguous

abbrev is_html : Text → Bool
is_html media = text_eq media (codes "text/html") || text_eq media (codes "application/xhtml+xml")

abbrev is_redirect : ℕ → Bool
is_redirect status =
    status == 301 || status == 302 || status == 303 || status == 307 || status == 308

-- `unquoteRefreshTarget`
unquote_trimmed : Text → Text
unquote_trimmed [] = []
unquote_trimmed (c ∷ []) = c ∷ []
unquote_trimmed (c ∷ d ∷ ds) =
    if (c == b'"' || c == 39) && ends_in c (d ∷ ds) then trim (drop_last (d ∷ ds)) else c ∷ d ∷ ds

unfoldable pub unquote_refresh_target : Text → Text
unfolding unquote_trimmed
unquote_refresh_target s = unquote_trimmed (trim s)

-- The expression /^\s*(\d+(?:\.\d+)?)\s*(?:;\s*url\s*=\s*(.*?)\s*)?$/is of `parseRefreshTransition`:
-- the number, and the text behind `url=`, empty where that part is missing.
abbrev skip_spaces : Text → Text
skip_spaces = drop_while is_space

digits_of : Text → Text × Text
digits_of [] = ([], [])
digits_of (c ∷ cs) =
    let (ds, rest) = digits_of cs in if is_digit c then (c ∷ ds, rest) else ([], c ∷ cs)

fraction_of : Text → Text → Text × Text
fraction_of whole (c ∷ cs) =
    let (ds, rest) = digits_of cs in
    if c == b'.' && not (text_eq ds []) then (whole ++ (c ∷ ds), rest) else (whole, c ∷ cs)
fraction_of whole [] = (whole, [])

abbrev is_letter : ℕ → ℕ → Bool
is_letter small c = c == small || c + 32 == small

after_url : Text → Option Text
after_url (u ∷ r ∷ l ∷ rest) =
    if is_letter b'u' u && is_letter b'r' r && is_letter b'l' l then some rest else none
after_url _ = none

after_equals : Text → Option Text
after_equals (c ∷ rest) = if c == b'=' then some (trim rest) else none
after_equals [] = none

after_number : Text → Option Text
after_number [] = some []
after_number (c ∷ rest) =
    if c == b';'
    then elim (after_url (skip_spaces rest)) [
      | none ↦ none
      | some more ↦ after_equals (skip_spaces more)
    ]
    else none

unfoldable pub match_refresh : Text → Option (Text × Text)
unfolding digits_of fraction_of after_url after_equals after_number
match_refresh s =
    let (whole, rest) = digits_of (skip_spaces s) in
    let (number, more) = fraction_of whole rest in
    if text_eq whole [] then none else elim (after_number (skip_spaces more)) [
      | none ↦ none
      | some target ↦ some (number, target)
    ]

abbrev pub http_protocol : Text
http_protocol = codes "http:"

abbrev pub https_protocol : Text
https_protocol = codes "https:"

abbrev pub is_http : Text → Bool
is_http protocol = text_eq protocol http_protocol || text_eq protocol https_protocol

module _ {D I : Type 0} (env : Environment D I) where
  values_of : Text → List (Text × List Text) → List Text
  values_of name [] = []
  values_of name ((header, values) ∷ headers) =
      let rest = values_of name headers in
      if text_eq (env.lower header) name then values ++ rest else rest

  unfoldable pub single_header : List (Text × List Text) → Text → SingleHeader
  unfolding values_of single_value
  single_header headers name = single_value (values_of name headers)

  abbrev header_value : SingleHeader → Option Text
  header_value missing = none
  header_value ambiguous = none
  header_value (value v) = some v

  -- The rest of `resolveTransition`, at the parsed target.
  at_target : TransitionKind → Option D → Option Url → TransitionDecision D
  at_target kind delay_ms none = stop failure (codes "invalid-target") none
  at_target kind delay_ms (some target) =
      if not (is_http target.protocol) || ltb max_chain_url_length (length target.href)
      then stop failure (codes "invalid-target") (some target.href)
      else follow (record { kind = kind; target_url = target.href; delay_ms = delay_ms })

  resolve_transition : TransitionKind → Text → Text → Option D → TransitionDecision D
  unfolding at_target
  resolve_transition kind raw_target current_url delay_ms =
      at_target kind delay_ms (env.parse_url (trim raw_target) current_url)

  -- The rest of `parseRefreshTransition`, at the delay and at the match.
  at_delay : TransitionKind → Text → D → Text → Option D → TransitionDecision D
  at_delay kind current_url max_delay_ms raw none = stop failure (codes "invalid-refresh") none
  at_delay kind current_url max_delay_ms raw (some delay_ms) =
      let raw_target = unquote_refresh_target raw in
      if env.exceeds delay_ms max_delay_ms
      then stop skipped (codes "refresh-delay-exceeded") none
      else resolve_transition kind (if text_eq raw_target [] then current_url else raw_target)
          current_url (some delay_ms)

  at_match : TransitionKind → Text → D → Option (Text × Text) → TransitionDecision D
  unfolding at_delay
  at_match kind current_url max_delay_ms none = stop failure (codes "invalid-refresh") none
  at_match kind current_url max_delay_ms (some (number, raw)) =
      at_delay kind current_url max_delay_ms raw (env.delay number)

  parse_refresh_transition : TransitionKind → Text → Text → D → TransitionDecision D
  unfolding at_match
  parse_refresh_transition kind text current_url max_delay_ms =
      at_match kind current_url max_delay_ms (match_refresh text)

  -- The body is decoded, where its encoding is known, and handed on.
  at_text : Option Text → (Text → TransitionDecision D) → TransitionDecision D
  at_text none continue = stop failure (codes "refresh-charset-unsupported") none
  at_text (some text) continue = continue text

  -- `refreshEligibility`, with what follows if it answers null.
  at_type : Response → Option (Text × Option Text) → TransitionDecision D → TransitionDecision D
  unfolding at_text
  at_type response none eligible = stop skipped (codes "refresh-mime-unsupported") none
  at_type response (some (media, charset)) eligible =
      if is_html media
      then at_text (env.decode_html response.body charset) (λ _. eligible)
      else stop skipped (codes "refresh-mime-unsupported") none

  refresh_eligibility :
      Response
      → Option (Text × Option Text)
      → RefreshPolicy D
      → TransitionDecision D
      → TransitionDecision D
  unfolding at_type
  refresh_eligibility response content_type policy eligible =
      if ltb policy.max_bytes (length response.body)
      then stop skipped (codes "refresh-body-too-large") none
      else at_type response content_type eligible

  at_meta : Text → D → Option Text → TransitionDecision D
  at_meta current_url max_delay_ms none = terminal
  at_meta current_url max_delay_ms (some content) =
      parse_refresh_transition html_meta_refresh content current_url max_delay_ms

  scan_body :
      Response
      → Text
      → TransportMethod
      → RefreshPolicy D
      → Option (Text × Option Text)
      → TransitionDecision D
  unfolding at_text at_meta
  scan_body response current_url head policy content_type = terminal
  scan_body response current_url get policy none = terminal
  scan_body response current_url get policy (some (media, charset)) =
      if not (is_html media)
      then terminal
      else if ltb policy.max_bytes (length response.body)
      then stop skipped (codes "refresh-body-too-large") none
      else at_text (env.decode_html response.body charset)
          (λ text. at_meta current_url policy.max_delay_ms (env.meta_refresh text))

  at_location : Text → SingleHeader → TransitionDecision D
  at_location current_url (value location) =
      resolve_transition http_redirect location current_url none
  at_location current_url _ = stop failure (codes "invalid-target") none

  at_refresh :
      Response
      → Text
      → TransportMethod
      → RefreshPolicy D
      → Option (Text × Option Text)
      → SingleHeader
      → TransitionDecision D
  unfolding refresh_eligibility scan_body
  at_refresh response current_url method policy content_type missing =
      scan_body response current_url method policy content_type
  at_refresh response current_url method policy content_type ambiguous =
      stop failure (codes "invalid-refresh") none
  at_refresh response current_url method policy content_type (value refresh) =
      refresh_eligibility response content_type policy
        (parse_refresh_transition http_refresh refresh current_url policy.max_delay_ms)

  abbrev parsed_type : Option Text → Option (Text × Option Text)
  parsed_type none = none
  parsed_type (some v) = env.content_type v

  unfoldable pub transition_for :
      Response → Text → TransportMethod → RefreshPolicy D → TransitionDecision D
  unfolding at_location at_refresh resolve_transition parse_refresh_transition
  transition_for response current_url method policy =
      if is_redirect response.status
      then at_location current_url (single_header response.headers (codes "location"))
      else (at_refresh response current_url method policy
          (parsed_type (header_value (single_header response.headers (codes "content-type"))))
          (single_header response.headers (codes "refresh")))
