-- ===== src/Url/Tokens/RoundTrip.antt =====
-- A URL written from its regions is split into them again by raw-tokens.ts.
use mathlib.Core.List.{append_assoc, append-nil}
use linklint.Common.{
  All, All-append, Bool-cases, Option, Text, [], ap, arith, codes, contains, false, inl, inr,
  lower_ascii, none, refl, some, true, ℕ, ◌&&◌, ◌++◌, ◌==◌, ◌∙◌, ◌∷◌, ◌≡◌, ◌⊎◌,
}
use linklint.Url.Syntax.{
  first_index_of, index_of, is_ascii_letter, is_scheme_unit, looks_like_host_port,
}
use linklint.Url.Syntax.Cuts.{
  Lacks, drop-length-append, drop_past-append, index_where-Lacks, index_where-append,
  take-length-append,
}
use linklint.Url.Tokens.{
  Body, Head, RawUrlTokens, authority_tokens, before, file_tokens, hostless_file_body, is_slash,
  leading_authority_introducer, past, raw_tokens, read_scheme, remainder, scheme_is,
  scheme_is_opaque, split_path_query_fragment, tokenize_raw_url, tokens_after,
}
use linklint.Url.Tokens.Regions.{IsBody, OptionalLacks, is_delimiter}
use linklint.Url.Tokens.Written.{body_text, marked}
use linklint.Url.Syntax.Scheme.{scheme_match_written}

-- Cut at a mark: what stands before it has none.
cut_at :
    (c : ℕ) (s : Text) (rest : Option Text)
    → Lacks (λ d. d == c) s
    → (before (index_of c (s ++ marked c rest)) (s ++ marked c rest) ≡ s)
      × (past (index_of c (s ++ marked c rest)) (s ++ marked c rest) ≡ rest)
unfolding index_of
cut_at c s none h = rw (append-nil s, index_where-Lacks (λ d. d == c) s h) (refl, refl)
cut_at c s (some rest) h =
    let hit : (c == c) ≡ true = ground arith in
    rw (index_where-append (λ d. d == c) s c rest h hit)
      (take-length-append s (c ∷ rest), ap some (drop_past-append s c rest))

split-cut :
    (work : Text) (fragment : Option Text)
    → Lacks (λ c. c == b'#') work
    → split_path_query_fragment (work ++ marked b'#' fragment) ≡ record {
      path = before (index_of b'?' work) work;
      query = past (index_of b'?' work) work;
      fragment = fragment;
    }
unfolding split_path_query_fragment
split-cut work fragment h = rw ((cut_at b'#' work fragment h).0, (cut_at b'#' work fragment h).1)

Lacks-marked :
    (query : Option Text)
    → OptionalLacks (λ c. c == b'#') query
    → Lacks (λ c. c == b'#') (marked b'?' query)
Lacks-marked none h = tt
Lacks-marked (some q) h = (refl, h)

split-body :
    (path : Text) (query fragment : Option Text)
    → IsBody path query
    → split_path_query_fragment (body_text path query fragment)
      ≡ record { path = path; query = query; fragment = fragment }
split-body path query fragment h =
    let clear : Lacks (λ c. c == b'#') (path ++ marked b'?' query) =
      All-append (λ c. (c == b'#') ≡ false) path (marked b'?' query) h.1 (Lacks-marked query h.2) in
    rw (← append_assoc path (marked b'?' query) (marked b'#' fragment)) (
      split-cut (path ++ marked b'?' query) fragment clear
      ∙ rw ((cut_at b'?' path query h.0).0, (cut_at b'?' path query h.0).1))

-- A path that follows an authority is empty or starts with a slash.
abbrev pub FollowsAuthority : Text → Type 0
FollowsAuthority [] = Unit
FollowsAuthority (c ∷ cs) = c ≡ b'/'

body_cases :
    (path : Text) (query fragment : Option Text)
    → FollowsAuthority path
    → (body_text path query fragment ≡ [])
      ⊎ ((c : ℕ) × (rest : Text) × (is_delimiter c ≡ true)
          × (body_text path query fragment ≡ c ∷ rest))
body_cases [] none none h = inl refl
body_cases [] none (some f) h = inr (b'#', f, refl, refl)
body_cases [] (some q) fragment h = inr (b'?', q ++ marked b'#' fragment, refl, refl)
body_cases (c ∷ cs) query fragment h = inr (c, body_text cs query fragment, rw h, refl)

region_cut :
    (authority body : Text)
    → Lacks is_delimiter authority
    → (body ≡ []) ⊎ ((c : ℕ) × (rest : Text) × (is_delimiter c ≡ true) × (body ≡ c ∷ rest))
    → (before (first_index_of (authority ++ body) (codes "/?#")) (authority ++ body) ≡ authority)
      × (remainder (first_index_of (authority ++ body) (codes "/?#")) (authority ++ body) ≡ body)
unfolding first_index_of
region_cut authority body h (inl e) =
    rw (e, append-nil authority, index_where-Lacks is_delimiter authority h) (refl, refl)
region_cut authority body h (inr (c, rest, hit, e)) =
    rw (e, index_where-append is_delimiter authority c rest h hit)
      (take-length-append authority (c ∷ rest), drop-length-append authority (c ∷ rest))

-- The regions of a URL with an authority, and the head that its scheme gives.
abbrev pub url_tokens : (scheme authority path : Text) (query fragment : Option Text) → RawUrlTokens
url_tokens scheme authority path query fragment = record {
  prepared = scheme ++ (codes "://" ++ (authority ++ body_text path query fragment));
  raw_scheme = some scheme;
  scheme = some (lower_ascii scheme);
  scheme_delimiter = some (codes ":");
  protocol_relative = false;
  opaque = false;
  authority_introducer = codes "//";
  authority = authority;
  path = path;
  query = query;
  fragment = fragment;
}

abbrev pub IsScheme : Text → Type 0
IsScheme [] = ⊥
IsScheme (c ∷ cs) =
    (is_ascii_letter c ≡ true)
    × All (λ d. is_scheme_unit d ≡ true) cs
    × (contains b'.' (lower_ascii (c ∷ cs)) ≡ false)

-- Not empty, with no delimiter, and with no slash or backslash in front.
abbrev pub IsAuthority : Text → Type 0
IsAuthority [] = ⊥
IsAuthority (c ∷ cs) = (is_slash c ≡ false) × Lacks is_delimiter (c ∷ cs)

abbrev url_head : Text → Text → Head
url_head scheme after = record {
  raw_scheme = some scheme;
  scheme = some (lower_ascii scheme);
  scheme_delimiter = some (codes ":");
  rest = codes "//" ++ after;
}

read_scheme-url :
    (scheme after : Text)
    → IsScheme scheme
    → read_scheme (scheme ++ (codes "://" ++ after)) ≡ url_head scheme after
unfolding read_scheme looks_like_host_port
read_scheme-url [] after h = absurd h
read_scheme-url (c ∷ cs) after h = rw (scheme_match_written c cs (codes "//" ++ after) h.0 h.1, h.2)

authority_tokens-url :
    (prepared scheme authority path : Text) (query fragment : Option Text)
    → IsAuthority authority
    → FollowsAuthority path
    → IsBody path query
    → authority_tokens prepared (url_head scheme (authority ++ body_text path query fragment)) false
      ≡ record (url_tokens scheme authority path query fragment) { prepared = prepared }
unfolding authority_tokens leading_authority_introducer
authority_tokens-url prepared scheme [] path query fragment h k b = absurd h
authority_tokens-url prepared scheme (c ∷ cs) path query fragment h k b =
    let cut =
      region_cut (c ∷ cs) (body_text path query fragment) h.1 (body_cases path query fragment k) in
    rw (h.0, cut.0, cut.1)
      (ap
        (λ (b : Body).
          raw_tokens prepared (url_head scheme ((c ∷ cs) ++ body_text path query fragment)) false
            false (codes "//") (c ∷ cs) b)
        (split-body path query fragment b))

hostless_file_body-host :
    (c : ℕ) (rest : Text)
    → is_slash c ≡ false
    → hostless_file_body (codes "//" ++ (c ∷ rest)) ≡ none
unfolding hostless_file_body
hostless_file_body-host c rest h = ground arith

file_tokens-url :
    (prepared : Text) (head : Head) (authority after : Text)
    → head.rest ≡ codes "//" ++ (authority ++ after)
    → IsAuthority authority
    → file_tokens prepared head false (hostless_file_body head.rest)
      ≡ authority_tokens prepared head false
file_tokens-url prepared head [] after e h = absurd h
file_tokens-url prepared head (c ∷ cs) after e h =
    rw (e, hostless_file_body-host c (cs ++ after) h.0)

tokens_after-url :
    (prepared scheme authority after : Text)
    → IsAuthority authority
    → tokens_after prepared (url_head scheme (authority ++ after))
      ≡ authority_tokens prepared (url_head scheme (authority ++ after)) false
unfolding tokens_after
tokens_after-url prepared scheme authority after h =
    let head = url_head scheme (authority ++ after) in
    let slashes : (scheme_is_opaque head.scheme && false) ≡ false = ground arith in
    elim (Bool-cases (scheme_is (codes "file") head.scheme)) [
      | inl file ↦ rw (slashes, file) (file_tokens-url prepared head authority after refl h)
      | inr other ↦ rw (slashes, other)
    ]

-- A URL that is written from a scheme with no dot, `://`, an authority that does not start with a
-- slash, a path that is empty or starts with `/`, a query and a fragment, each without the
-- delimiters of the later ones, is split into exactly these.
pub tokenize_raw_url-url :
    (scheme authority path : Text) (query fragment : Option Text)
    → IsScheme scheme
    → IsAuthority authority
    → FollowsAuthority path
    → IsBody path query
    → tokenize_raw_url (url_tokens scheme authority path query fragment).prepared
      ≡ url_tokens scheme authority path query fragment
unfolding tokenize_raw_url
tokenize_raw_url-url scheme authority path query fragment s a f b =
    let body = body_text path query fragment in
    let prepared = scheme ++ (codes "://" ++ (authority ++ body)) in
    rw
      (
        read_scheme-url scheme (authority ++ body) s,
        tokens_after-url prepared scheme authority body a,
      )
      (authority_tokens-url prepared scheme authority path query fragment a f b)
