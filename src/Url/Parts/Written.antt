-- ===== src/Url/Parts/Written.antt =====
-- A URL that is written from its parts parses as them.
use mathlib.Core.List.{append_assoc, append-nil}
use linklint.Common.{
  Option, Text, [], all, arith, codes, contains, false, is_digit, is_empty, lower_ascii, ltb, none,
  refl, some, true, ℕ, ◌&&◌, ◌++◌, ◌==◌, ◌∷◌, ◌≡◌, ◌≤◌,
}
use linklint.Ipv4.{parse_int}
use linklint.Url.Parts.{
  HostPort, RawParts, cut_last, has_parseable_authority_introducer, host_parts, host_port,
  hostport_of, is_bare_single_label, is_port_digits, max_port, parse_raw_parts, plain_host,
  split_raw_parts, to_port, userinfo_of,
}
use linklint.Url.Parts.Cuts.{cut_last-append, cut_last-contains}
use linklint.Url.Chars.{Classes, host_is_valid}
use linklint.Url.Tokens.{RawUrlTokens, scheme_is, tokenize_raw_url}
use linklint.Url.Parts.Reading.{and_false, userinfo_text}
use linklint.Url.Tokens.Regions.{IsBody}
use linklint.Url.Tokens.RoundTrip.{
  FollowsAuthority, IsAuthority, IsScheme, tokenize_raw_url-url, url_tokens,
}

abbrev pub port_text : Option Text → Text
port_text none = []
port_text (some digits) = b':' ∷ digits

abbrev pub authority_text : Option Text → Text → Option Text → Text
authority_text userinfo host digits = userinfo_text userinfo ++ (host ++ port_text digits)

-- A host that does not start with a bracket, and has no colon.
abbrev IsPlainHost : Text → Type 0
IsPlainHost [] = ⊥
IsPlainHost (c ∷ cs) = ((c == b'[') ≡ false) × (contains b':' (c ∷ cs) ≡ false)

abbrev IsPortText : Option Text → Type 0
IsPortText none = Unit
IsPortText (some digits) = (is_port_digits digits ≡ true) × (parse_int 10 0 digits ≤ 65535)

abbrev pub port_of : Option Text → Option ℕ
port_of none = none
port_of (some digits) = some (parse_int 10 0 digits)

abbrev plain : Text → Option ℕ → HostPort
plain host port = record { raw_host = host; port = port; bracketed = false }

digits_colonless : (s : Text) → is_port_digits s ≡ true → contains b':' s ≡ false
digits_colonless [] h = refl
digits_colonless (c ∷ cs) h = all_digits (c ∷ cs) h
  where
    all_digits : (s : Text) → all is_digit s ≡ true → contains b':' s ≡ false
    all_digits [] h = refl
    all_digits (c ∷ cs) h = ground (arith, all_digits cs)

plain_host-written :
    (host : Text) (digits : Option Text)
    → contains b':' host ≡ false
    → IsPortText digits
    → plain_host (host ++ port_text digits) (cut_last b':' (host ++ port_text digits))
      ≡ some (plain host (port_of digits))
unfolding to_port
plain_host-written host none h k = rw (append-nil host, cut_last-contains b':' host h)
plain_host-written host (some digits) h k =
    let small : ltb max_port (parse_int 10 0 digits) ≡ false = ground (arith, k.1) in
    rw (cut_last-append b':' host digits (digits_colonless digits k.0), k.0, small)

host_port-written :
    (host : Text) (digits : Option Text)
    → IsPlainHost host
    → IsPortText digits
    → host_port (host ++ port_text digits) ≡ some (plain host (port_of digits))
unfolding host_port
host_port-written [] digits h k = absurd h
host_port-written (c ∷ cs) digits h k = rw h.0 (plain_host-written (c ∷ cs) digits h.1 k)

-- The parts of a URL with a scheme.
abbrev pub url_parts :
    (scheme : Text) (userinfo : Option Text) (host : Text) (digits : Option Text)
    → (path : Text) (query fragment : Option Text) → RawParts
url_parts scheme userinfo host digits path query fragment = record {
  scheme = some (lower_ascii scheme);
  userinfo = userinfo;
  raw_host = host;
  port = port_of digits;
  path = path;
  query = query;
  fragment = fragment;
}

userinfo_cut :
    (userinfo : Option Text) (rest : Text)
    → contains b'@' rest ≡ false
    → (userinfo_of (cut_last b'@' (userinfo_text userinfo ++ rest)) ≡ userinfo)
      × (hostport_of
            (userinfo_text userinfo ++ rest)
            (cut_last b'@' (userinfo_text userinfo ++ rest))
          ≡ rest)
userinfo_cut none rest h = rw (cut_last-contains b'@' rest h) (refl, refl)
userinfo_cut (some u) rest h =
    rw (append_assoc u (codes "@") rest, cut_last-append b'@' u rest h) (refl, refl)

split_raw_parts-written :
    (classes : Classes) (t : RawUrlTokens) (userinfo : Option Text) (host : Text)
    (digits : Option Text)
    → t.opaque ≡ false
    → (scheme_is (codes "file") t.scheme && is_empty t.authority) ≡ false
    → has_parseable_authority_introducer t ≡ true
    → t.authority ≡ authority_text userinfo host digits
    → contains b'@' (host ++ port_text digits) ≡ false
    → IsPlainHost host
    → IsPortText digits
    → host_is_valid classes host ≡ true
    → split_raw_parts classes t ≡ some (host_parts t userinfo (plain host (port_of digits)))
unfolding split_raw_parts
split_raw_parts-written classes t userinfo host digits clear remote intro authority at h k valid =
    let cut = userinfo_cut userinfo (host ++ port_text digits) at in
    rw (clear, remote, intro, authority, cut.0, cut.1, host_port-written host digits h k, valid)

IsAuthority-is_empty : (s : Text) → IsAuthority s → is_empty s ≡ false
IsAuthority-is_empty [] h = absurd h
IsAuthority-is_empty (c ∷ cs) h = refl

-- A URL that is written as scheme, `://`, optional userinfo and `@`, host, optional `:` and port,
-- path, query and fragment parses as exactly these, the scheme in lower case and the port as a
-- number: where the scheme has no dot, the host is valid, has no colon and no bracket in front,
-- host and port have no `@`, the port is at most 65535, and the delimiters stand where the later
-- regions start.
pub parse_raw_parts-url :
    (classes : Classes) (scheme : Text) (userinfo : Option Text) (host : Text)
    (digits : Option Text) (path : Text) (query fragment : Option Text)
    → IsScheme scheme
    → IsAuthority (authority_text userinfo host digits)
    → FollowsAuthority path
    → IsBody path query
    → contains b'@' (host ++ port_text digits) ≡ false
    → IsPlainHost host
    → IsPortText digits
    → host_is_valid classes host ≡ true
    → parse_raw_parts classes (
        tokenize_raw_url
          (url_tokens scheme (authority_text userinfo host digits) path query fragment).prepared)
      ≡ some (url_parts scheme userinfo host digits path query fragment)
unfolding parse_raw_parts has_parseable_authority_introducer is_bare_single_label
parse_raw_parts-url classes scheme userinfo host digits path query fragment s a f b at h k valid =
    let authority = authority_text userinfo host digits in
    let t = url_tokens scheme authority path query fragment in
    let remote : (scheme_is (codes "file") t.scheme && is_empty t.authority) ≡ false =
      rw (IsAuthority-is_empty authority a) (and_false (scheme_is (codes "file") t.scheme)) in
    rw (
      tokenize_raw_url-url scheme authority path query fragment s a f b,
      split_raw_parts-written classes t userinfo host digits refl remote refl refl at h k valid,
    )
