-- ===== src/Url/Tokens/Written.antt =====
-- The regions of raw-tokens.ts put back together.
use mathlib.Core.Path.{sym}
use mathlib.Core.List.{append_assoc, append-nil}
use linklint.Common.{
  Bool, Bool-cases, Option, Text, [], ap, arith, codes, contains, drop, inl, inr, is_none, length,
  lower_ascii, none, not, refl, some, suc, take, zero, ℕ, ◌&&◌, ◌++◌, ◌==◌, ◌∙◌, ◌∷◌, ◌≡◌,
}
use linklint.Url.Syntax.{first_index_of, index_of, looks_like_host_port}
use linklint.Url.Syntax.Cuts.{absent, index_where-Cut, present}
use linklint.Url.Syntax.Scheme.{Match, found, none_here, scheme_match-Match}
use linklint.Url.Tokens.{
  Body, Head, Hostless, RawUrlTokens, authority_tokens, before, file_tokens, hostless_file_body,
  is_slash, leading, leading_authority_introducer, matched_head, past, read_scheme, remainder,
  scheme_is, scheme_is_opaque, split_path_query_fragment, tokenize_raw_url, tokens_after,
  two_slashes,
}

abbrev pub optional : Option Text → Text
optional none = []
optional (some s) = s

abbrev pub marked : ℕ → Option Text → Text
marked mark none = []
marked mark (some s) = mark ∷ s

abbrev pub body_text : Text → Option Text → Option Text → Text
body_text path query fragment = path ++ (marked b'?' query ++ marked b'#' fragment)

-- The regions in the order of the text, with the delimiters that split them.
abbrev pub written : RawUrlTokens → Text
written t =
    optional t.raw_scheme
    ++ (optional t.scheme_delimiter
        ++ (t.authority_introducer ++ (t.authority ++ body_text t.path t.query t.fragment)))

before-past : (c : ℕ) (s : Text) → before (index_of c s) s ++ marked c (past (index_of c s) s) ≡ s
unfolding index_of
before-past c s = elim (index_where-Cut (λ d. d == c) s) [
  | absent e lacks ↦ rw e (append-nil s)
  | present i d rest e lacks hit here after whole ↦
      let same : d ≡ c = ground arith in rw (e, after, ← same) (sym whole)
]

-- The body of any text.
abbrev text_of : Body → Text
text_of b = body_text b.path b.query b.fragment

body-written : (s : Text) → text_of (split_path_query_fragment s) ≡ s
unfolding split_path_query_fragment
body-written s =
    let work = before (index_of b'#' s) s in
    sym (append_assoc (before (index_of b'?' work) work) _ _)
    ∙ ap (λ t. t ++ marked b'#' (past (index_of b'#' s) s)) (before-past b'?' work)
    ∙ before-past b'#' s

leading-append : (p : ℕ → Bool) (s : Text) → leading p s ++ drop (length (leading p s)) s ≡ s
leading-append p [] = refl
leading-append p (c ∷ cs) = elim (Bool-cases (p c)) [
  | inl hit ↦ rw hit (ap (λ t. c ∷ t) (leading-append p cs))
  | inr other ↦ rw other
]

take-append-drop : (n : ℕ) (s : Text) → take n s ++ drop n s ≡ s
take-append-drop zero s = refl
take-append-drop (suc n) [] = refl
take-append-drop (suc n) (c ∷ cs) = ap (λ t. c ∷ t) (take-append-drop n cs)

introducer-append :
    (rest : Text) (scheme : Option Text) (relative : Bool)
    → leading_authority_introducer rest scheme relative
        ++ drop (length (leading_authority_introducer rest scheme relative)) rest
      ≡ rest
unfolding leading_authority_introducer
introducer-append rest scheme relative = elim (Bool-cases (is_none scheme && not relative)) [
  | inl bare ↦ rw bare
  | inr led ↦ elim (Bool-cases (two_slashes rest)) [
    | inl slashes ↦ rw (led, slashes) (leading-append is_slash rest)
    | inr other ↦ rw (led, other)
  ]
]

region-append :
    (region : Text)
    → before (first_index_of region (codes "/?#")) region
        ++ remainder (first_index_of region (codes "/?#")) region
      ≡ region
unfolding first_index_of
region-append region = elim (index_where-Cut (λ d. contains d (codes "/?#")) region) [
  | absent e lacks ↦ rw e (append-nil region)
  | present i d rest e lacks hit here after whole ↦ rw e (take-append-drop i region)
]

-- The scheme and its colon, and a text after them.
abbrev before_rest : Head → Text → Text
before_rest head s = optional head.raw_scheme ++ (optional head.scheme_delimiter ++ s)

abbrev head_text : Head → Text
head_text head = before_rest head head.rest

matched-written :
    (prepared : Text) {m : Option (Text × Text)}
    → Match prepared m
    → head_text (matched_head prepared m) ≡ prepared
matched-written prepared (none_here e) = rw e
matched-written prepared (found name rest e whole) =
    elim (Bool-cases (looks_like_host_port (lower_ascii name) rest)) [
      | inl port ↦ rw (e, port)
      | inr scheme ↦ rw (e, scheme) (sym whole)
    ]

read_scheme-written : (prepared : Text) → head_text (read_scheme prepared) ≡ prepared
unfolding read_scheme
read_scheme-written prepared = matched-written prepared (scheme_match-Match prepared)

authority_tokens-written :
    (prepared : Text) (head : Head) (relative : Bool)
    → written (authority_tokens prepared head relative) ≡ head_text head
unfolding authority_tokens
authority_tokens-written prepared head relative =
    let introducer = leading_authority_introducer head.rest head.scheme relative in
    let region = drop (length introducer) head.rest in
    let delimiter = first_index_of region (codes "/?#") in
    ap (λ t. before_rest head (introducer ++ (before delimiter region ++ t)))
      (body-written (remainder delimiter region))
    ∙ ap (λ t. before_rest head (introducer ++ t)) (region-append region)
    ∙ ap (before_rest head) (introducer-append head.rest head.scheme relative)

hostless-append :
    (rest : Text) (h : Hostless)
    → hostless_file_body rest ≡ some h
    → h.authority_introducer ++ h.path ≡ rest
unfolding hostless_file_body
hostless-append rest h e = ground (arith, take-append-drop 2 rest)

file_tokens-written :
    (prepared : Text) (head : Head) (relative : Bool) (m : Option Hostless)
    → hostless_file_body head.rest ≡ m
    → written (file_tokens prepared head relative m) ≡ head_text head
file_tokens-written prepared head relative none e = authority_tokens-written prepared head relative
file_tokens-written prepared head relative (some h) e =
    ap (λ t. before_rest head (h.authority_introducer ++ t)) (body-written h.path)
    ∙ ap (before_rest head) (hostless-append head.rest h e)

tokens_after-written :
    (prepared : Text) (head : Head) → written (tokens_after prepared head) ≡ head_text head
unfolding tokens_after
tokens_after-written prepared head =
    elim (Bool-cases (scheme_is_opaque head.scheme && not (two_slashes head.rest))) [
      | inl opaque ↦ rw opaque (ap (before_rest head) (body-written head.rest))
      | inr other ↦ elim (Bool-cases (scheme_is (codes "file") head.scheme)) [
        | inl file ↦ rw (other, file) (file_tokens-written prepared head _ _ refl)
        | inr none_of ↦ rw (other, none_of) (authority_tokens-written prepared head _)
      ]
    ]

-- Whatever the text, the scheme, its colon, the slashes, the authority, the path, the query and the
-- fragment give it back when they are written one after the other.
pub tokenize_raw_url-written : (prepared : Text) → written (tokenize_raw_url prepared) ≡ prepared
unfolding tokenize_raw_url
tokenize_raw_url-written prepared =
    tokens_after-written prepared (read_scheme prepared) ∙ read_scheme-written prepared
