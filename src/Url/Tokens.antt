-- ===== src/Url/Tokens.antt =====
-- packages/core/src/parse/raw-tokens.ts: a prepared text split into its raw regions, unvalidated.
pub mod Written
pub mod Regions
pub mod RoundTrip
use linklint.Common.{
  Bool, Option, Text, [], codes, drop, false, if◌then◌else◌, is_empty, is_none, length, lower_ascii,
  none, not, some, starts_with, suc, take, text_eq, true, ℕ, ◌&&◌, ◌==◌, ◌||◌, ◌∷◌,
}
use linklint.Url.Syntax.{
  first_index_of, index_of, is_opaque_scheme, looks_like_host_port, scheme_match,
}

pub record RawUrlTokens : Type 0 where
  pub prepared : Text
  pub raw_scheme : Option Text
  pub scheme : Option Text
  pub scheme_delimiter : Option Text
  pub protocol_relative : Bool
  pub opaque : Bool
  pub authority_introducer : Text
  pub authority : Text
  pub path : Text
  pub query : Option Text
  pub fragment : Option Text

pub record Body : Type 0 where
  pub path : Text
  pub query : Option Text
  pub fragment : Option Text

-- What stands before the position, and what stands past it.
abbrev pub before : Option ℕ → Text → Text
before none s = s
before (some i) s = take i s

abbrev pub past : Option ℕ → Text → Option Text
past none s = none
past (some i) s = some (drop (suc i) s)

unfoldable pub split_path_query_fragment : Text → Body
unfolding index_of
split_path_query_fragment input =
    let work = before (index_of b'#' input) input in
    record {
      path = before (index_of b'?' work) work;
      query = past (index_of b'?' work) work;
      fragment = past (index_of b'#' input) input;
    }

abbrev pub is_slash : ℕ → Bool
is_slash c = c == b'/' || c == 0x5c

-- `/^[/\\]{2}/`
abbrev pub two_slashes : Text → Bool
two_slashes (a ∷ b ∷ rest) = is_slash a && is_slash b
two_slashes _ = false

-- The variables of the function, once the scheme is read.
pub record Head : Type 0 where
  pub raw_scheme : Option Text
  pub scheme : Option Text
  pub scheme_delimiter : Option Text
  pub rest : Text

abbrev pub no_head : Text → Head
no_head prepared = record {
  raw_scheme = none;
  scheme = none;
  scheme_delimiter = none;
  rest = prepared;
}

abbrev pub matched_head : Text → Option (Text × Text) → Head
matched_head prepared none = no_head prepared
matched_head prepared (some (candidate_raw, after)) =
    if looks_like_host_port (lower_ascii candidate_raw) after then no_head prepared else record {
      raw_scheme = some candidate_raw;
      scheme = some (lower_ascii candidate_raw);
      scheme_delimiter = some (codes ":");
      rest = after;
    }

unfoldable pub read_scheme : Text → Head
unfolding scheme_match looks_like_host_port
read_scheme prepared = matched_head prepared (scheme_match prepared)

-- The leading run of units that pass the test.
abbrev pub leading : (ℕ → Bool) → Text → Text
leading p [] = []
leading p (c ∷ cs) = let rest = leading p cs in if p c then c ∷ rest else []

unfoldable pub leading_authority_introducer : Text → Option Text → Bool → Text
leading_authority_introducer rest scheme protocol_relative =
    if is_none scheme && not protocol_relative
    then []
    else if not (two_slashes rest)
    then []
    else leading is_slash rest

pub record Hostless : Type 0 where
  pub authority_introducer : Text
  pub path : Text

unfoldable pub hostless_file_body : Text → Option Hostless
hostless_file_body rest =
    if is_empty rest || starts_with (codes "/") rest || starts_with (codes "\\") rest
    then if two_slashes rest
      then if is_empty (drop 2 rest) || starts_with (codes "/") (drop 2 rest)
        then some (record { authority_introducer = take 2 rest; path = drop 2 rest })
        else none
      else some (record { authority_introducer = []; path = rest })
    else none

abbrev pub scheme_is : Text → Option Text → Bool
scheme_is name none = false
scheme_is name (some scheme) = text_eq scheme name

abbrev pub scheme_is_opaque : Option Text → Bool
scheme_is_opaque none = false
scheme_is_opaque (some scheme) = is_opaque_scheme scheme

-- The three return statements, given the scheme and the regions of each.
abbrev pub raw_tokens :
    Text
    → Head
    → (protocol_relative is_opaque : Bool) → (introducer authority : Text) → Body
    → RawUrlTokens
raw_tokens prepared head protocol_relative is_opaque introducer authority body = record {
  prepared = prepared;
  raw_scheme = head.raw_scheme;
  scheme = head.scheme;
  scheme_delimiter = head.scheme_delimiter;
  protocol_relative = protocol_relative;
  opaque = is_opaque;
  authority_introducer = introducer;
  authority = authority;
  path = body.path;
  query = body.query;
  fragment = body.fragment;
}

abbrev pub remainder : Option ℕ → Text → Text
remainder none s = []
remainder (some i) s = drop i s

unfoldable pub authority_tokens : Text → Head → Bool → RawUrlTokens
unfolding leading_authority_introducer first_index_of split_path_query_fragment
authority_tokens prepared head protocol_relative =
    let introducer = leading_authority_introducer head.rest head.scheme protocol_relative in
    let region = drop (length introducer) head.rest in
    let delimiter = first_index_of region (codes "/?#") in
    raw_tokens prepared head protocol_relative false introducer (before delimiter region)
      (split_path_query_fragment (remainder delimiter region))

abbrev pub file_tokens : Text → Head → Bool → Option Hostless → RawUrlTokens
file_tokens prepared head protocol_relative none = authority_tokens prepared head protocol_relative
file_tokens prepared head protocol_relative (some hostless) =
    raw_tokens prepared head protocol_relative false hostless.authority_introducer []
      (split_path_query_fragment hostless.path)

unfoldable pub tokens_after : Text → Head → RawUrlTokens
unfolding authority_tokens hostless_file_body split_path_query_fragment is_opaque_scheme
tokens_after prepared head =
    let protocol_relative = is_none head.scheme && two_slashes prepared in
    if scheme_is_opaque head.scheme && not (two_slashes head.rest)
    then raw_tokens prepared head protocol_relative true [] [] (split_path_query_fragment head.rest)
    else if scheme_is (codes "file") head.scheme
    then file_tokens prepared head protocol_relative (hostless_file_body head.rest)
    else authority_tokens prepared head protocol_relative

unfoldable pub tokenize_raw_url : Text → RawUrlTokens
unfolding read_scheme tokens_after
tokenize_raw_url prepared = tokens_after prepared (read_scheme prepared)
