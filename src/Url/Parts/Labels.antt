-- ===== src/Url/Parts/Labels.antt =====
-- Text without a scheme parses only with a host that shows it to be one, in raw-parts.ts.
use mathlib.Core.Path.{subst}
use mathlib.Core.Option.{some_inj}
use linklint.Common.{
  Bool, Bool-cases, Option, Text, arith, codes, contains, false, inl, inr, is_empty, is_none, none,
  not, refl, some, split, sym, true, ◌&&◌, ◌∙◌, ◌≡◌, ◌⊎◌,
}
use linklint.Ipv4.{analyze_ipv4}
use linklint.Ipv6.{analyze_ipv6}
use linklint.Url.Chars.{Classes, host_is_valid, strip_invisible}
use linklint.Url.Tokens.{
  Head, Hostless, authority_tokens, file_tokens, read_scheme, scheme_is, scheme_is_opaque,
  tokenize_raw_url, tokens_after, two_slashes,
}
use linklint.Url.Parts.{
  RawParts, SplitParts, host_accepted, is_bare_single_label, parse_raw_parts, parsed_of,
  split_raw_parts,
}
use linklint.Url.Parts.Reading.{IsIntroduced, authority_branch, host_port_of}

-- A dotted host, or an address.
abbrev pub NamesHost : Classes → Text → Type 0
NamesHost classes raw_host =
    (contains b'.' (strip_invisible classes raw_host) ≡ true)
    ⊎ ((is_none (analyze_ipv4 (strip_invisible classes raw_host)) ≡ false)
        ⊎ (is_none (analyze_ipv6 raw_host) ≡ false))

file_tokens-opaque :
    (prepared : Text) (head : Head) (relative : Bool) (m : Option Hostless)
    → (file_tokens prepared head relative m).opaque ≡ false
unfolding authority_tokens
file_tokens-opaque prepared head relative none = refl
file_tokens-opaque prepared head relative (some h) = refl

file_tokens-scheme :
    (prepared : Text) (head : Head) (relative : Bool) (m : Option Hostless)
    → (file_tokens prepared head relative m).scheme ≡ head.scheme
unfolding authority_tokens
file_tokens-scheme prepared head relative none = refl
file_tokens-scheme prepared head relative (some h) = refl

file_tokens-relative :
    (prepared : Text) (head : Head) (relative : Bool) (m : Option Hostless)
    → (file_tokens prepared head relative m).protocol_relative ≡ relative
unfolding authority_tokens
file_tokens-relative prepared head relative none = refl
file_tokens-relative prepared head relative (some h) = refl

tokens_after-scheme :
    (prepared : Text) (head : Head) → (tokens_after prepared head).scheme ≡ head.scheme
unfolding tokens_after authority_tokens
tokens_after-scheme prepared head =
    elim (Bool-cases (scheme_is_opaque head.scheme && not (two_slashes head.rest))) [
      | inl opaque ↦ rw opaque
      | inr other ↦ elim (Bool-cases (scheme_is (codes "file") head.scheme)) [
        | inl file ↦ rw (other, file) (file_tokens-scheme prepared head _ _)
        | inr none_of ↦ rw (other, none_of)
      ]
    ]

tokens_after-opaque :
    (prepared : Text) (head : Head)
    → head.scheme ≡ none
    → (tokens_after prepared head).opaque ≡ false
unfolding tokens_after authority_tokens
tokens_after-opaque prepared head bare = rw bare

tokens_after-relative :
    (prepared : Text) (head : Head)
    → (tokens_after prepared head).protocol_relative ≡ (is_none head.scheme && two_slashes prepared)
unfolding tokens_after authority_tokens
tokens_after-relative prepared head =
    elim (Bool-cases (scheme_is_opaque head.scheme && not (two_slashes head.rest))) [
      | inl opaque ↦ rw opaque
      | inr other ↦ elim (Bool-cases (scheme_is (codes "file") head.scheme)) [
        | inl file ↦ rw (other, file) (file_tokens-relative prepared head _ _)
        | inr none_of ↦ rw (other, none_of)
      ]
    ]

-- A text without a scheme whose introducer is accepted has none.
slashless :
    (prepared : Text)
    → (tokenize_raw_url prepared).scheme ≡ none
    → IsIntroduced (tokenize_raw_url prepared)
    → two_slashes prepared ≡ false
unfolding tokenize_raw_url
slashless prepared bare (inl (none', relative)) =
    let head = read_scheme prepared in
    let same : head.scheme ≡ none = sym (tokens_after-scheme prepared head) ∙ bare in
    let all' = sym (tokens_after-relative prepared head) ∙ relative in rw same at all'
slashless prepared bare (inr (given, how)) = let f = rw bare at given in cc

opaque-scheme :
    (prepared : Text)
    → (tokenize_raw_url prepared).scheme ≡ none
    → (tokenize_raw_url prepared).opaque ≡ false
unfolding tokenize_raw_url
opaque-scheme prepared h =
    let head = read_scheme prepared in
    tokens_after-opaque prepared head (sym (tokens_after-scheme prepared head) ∙ h)

valid_not_empty :
    (classes : Classes) (host : Text)
    → host_is_valid classes host ≡ true
    → is_empty (strip_invisible classes host) ≡ false
unfolding host_is_valid
valid_not_empty classes host h = elim (Bool-cases (is_empty (strip_invisible classes host))) [
  | inl nothing ↦ let f = rw nothing at h in cc
  | inr something ↦ something
]

names_host :
    (classes : Classes) (s : SplitParts)
    → s.parts.scheme ≡ none
    → host_accepted classes (host_port_of s) ≡ true
    → is_bare_single_label classes s ≡ false
    → NamesHost classes s.parts.raw_host
unfolding is_bare_single_label
names_host classes s bare accepted h = elim (Bool-cases s.bracketed) [
  | inl brackets ↦
      let k : not (is_none (analyze_ipv6 s.parts.raw_host)) ≡ true = rw brackets at accepted in
      inr (inr (ground arith))
  | inr plain ↦
      let k : host_is_valid classes s.parts.raw_host ≡ true = rw plain at accepted in
      let something = valid_not_empty classes s.parts.raw_host k in
      elim (Bool-cases (contains b'.' (strip_invisible classes s.parts.raw_host))) [
        | inl dotted ↦ inl dotted
        | inr dotless ↦
            let f : is_none (analyze_ipv4 (strip_invisible classes s.parts.raw_host)) ≡ false =
              rw (bare, plain, something, dotless) at h in
            inr (inl f)
      ]
]

-- The split that a parse rests on.
split_of :
    (classes : Classes) (m : Option SplitParts) (p : RawParts)
    → parsed_of classes m ≡ some p
    → (s : SplitParts) × (m ≡ some s) × (is_bare_single_label classes s ≡ false) × (s.parts ≡ p)
split_of classes none p e = cc
split_of classes (some s) p e = elim (Bool-cases (is_bare_single_label classes s)) [
  | inl bare ↦ let f = rw bare at e in cc
  | inr other ↦ let f : some s.parts ≡ some p = rw other at e in (s, refl, other, some_inj.0 f)
]

-- A text without a scheme parses only if it does not start with two slashes or
-- backslashes, and its host, without
-- its invisible characters, has a dot or is an IPv4 address, or is an IPv6 literal as written.
pub parse_raw_parts-schemeless :
    (classes : Classes) (prepared : Text) (p : RawParts)
    → parse_raw_parts classes (tokenize_raw_url prepared) ≡ some p
    → (tokenize_raw_url prepared).scheme ≡ none
    → (two_slashes prepared ≡ false) × NamesHost classes p.raw_host
unfolding parse_raw_parts
parse_raw_parts-schemeless classes prepared p e bare =
    let t = tokenize_raw_url prepared in
    let (s, split, label, parts) = split_of classes (split_raw_parts classes t) p e in
    let remote : (scheme_is (codes "file") t.scheme && is_empty t.authority) ≡ false = rw bare in
    let reading = authority_branch classes t s (opaque-scheme prepared bare) remote split in
    (
      slashless prepared bare reading.0,
      subst (λ (r : RawParts). NamesHost classes r.raw_host) parts
          (names_host classes s (reading.1.scheme ∙ bare) reading.1.accepted label),
    )
