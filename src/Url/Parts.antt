-- ===== src/Url/Parts.antt =====
-- packages/core/src/parse/raw-parts.ts: the tokens of a URL read as its parts.
pub mod Cuts
pub mod Reading
pub mod Labels
pub mod Written
use linklint.Common.{
  Bool, Option, Text, [], all, codes, contains, false, if◌then◌else◌, is_digit, is_empty, is_none,
  ltb, none, not, some, text_eq, true, ℕ, ◌&&◌, ◌++◌, ◌==◌, ◌||◌, ◌∷◌,
}
use linklint.Ipv4.{analyze_ipv4, parse_int}
use linklint.Ipv6.{analyze_ipv6}
use linklint.Url.Chars.{Classes, host_is_valid, strip_invisible}
use linklint.Url.Tokens.{RawUrlTokens, scheme_is}

pub record RawParts : Type 0 where
  pub scheme : Option Text
  pub userinfo : Option Text
  pub raw_host : Text
  pub port : Option ℕ
  pub path : Text
  pub query : Option Text
  pub fragment : Option Text

pub record SplitParts : Type 0 where
  pub parts : RawParts
  pub bracketed : Bool

abbrev pub max_port : ℕ
max_port = 65535

-- `Number(digits)`; where the source's is infinite, the value is above the bound too.
unfoldable pub to_port : Text → Option ℕ
unfolding parse_int
to_port digits =
    let value = parse_int 10 0 digits in if ltb max_port value then none else some value

-- `PORT_DIGITS_RE`
abbrev pub is_port_digits : Text → Bool
is_port_digits s = not (is_empty s) && all is_digit s

unfoldable pub has_parseable_authority_introducer : RawUrlTokens → Bool
has_parseable_authority_introducer t =
    if is_none t.scheme
    then not t.protocol_relative
    else is_empty t.authority_introducer || text_eq t.authority_introducer (codes "//")

abbrev pub prefixed : ℕ → Option Text → Text
prefixed mark none = []
prefixed mark (some s) = mark ∷ s

unfoldable pub opaque_body : RawUrlTokens → Text
opaque_body t = t.path ++ (prefixed b'?' t.query ++ prefixed b'#' t.fragment)

-- The two slices around `lastIndexOf(c)`, if there is one.
abbrev pub cut_last_next : ℕ → ℕ → Text → Option (Text × Text) → Option (Text × Text)
cut_last_next c d ds (some (left, right)) = some (d ∷ left, right)
cut_last_next c d ds none = if d == c then some ([], ds) else none

unfoldable pub cut_last : ℕ → Text → Option (Text × Text)
cut_last c [] = none
cut_last c (d ∷ ds) = cut_last_next c d ds (cut_last c ds)

-- The two slices around `indexOf(c)`, if there is one.
abbrev pub cut_first_next : ℕ → Option (Text × Text) → Option (Text × Text)
cut_first_next d (some (left, right)) = some (d ∷ left, right)
cut_first_next d none = none

unfoldable pub cut_first : ℕ → Text → Option (Text × Text)
cut_first c [] = none
cut_first c (d ∷ ds) =
    let rest = cut_first_next d (cut_first c ds) in if d == c then some ([], ds) else rest

-- The authority after its userinfo: the variables that the branches set.
pub record HostPort : Type 0 where
  pub raw_host : Text
  pub port : Option ℕ
  pub bracketed : Bool

abbrev pub with_port : Text → Bool → Option ℕ → Option HostPort
with_port raw_host bracketed none = none
with_port raw_host bracketed (some port) =
    some (record { raw_host = raw_host; port = some port; bracketed = bracketed })

abbrev pub without_port : Text → Bool → Option HostPort
without_port raw_host bracketed =
    some (record { raw_host = raw_host; port = none; bracketed = bracketed })

-- What follows the closing bracket.
abbrev pub port_part : Text → Text → Option HostPort
port_part raw_host [] = without_port raw_host true
port_part raw_host (c ∷ p) =
    if c == b':'
    then if not (is_port_digits p) then none else with_port raw_host true (to_port p)
    else none

abbrev pub bracketed_host : Option (Text × Text) → Option HostPort
bracketed_host none = none
bracketed_host (some (raw_host, after)) = port_part raw_host after

abbrev pub plain_host : Text → Option (Text × Text) → Option HostPort
plain_host hostport none = without_port hostport false
plain_host hostport (some (raw_host, digits)) =
    if is_port_digits digits
    then with_port raw_host false (to_port digits)
    else without_port hostport false

unfoldable pub host_port : Text → Option HostPort
unfolding cut_first cut_last to_port
host_port [] = plain_host [] none
host_port (c ∷ cs) =
    if c == b'['
    then bracketed_host (cut_first b']' cs)
    else plain_host (c ∷ cs) (cut_last b':' (c ∷ cs))

-- The authority before and after the last `@`.
abbrev pub userinfo_of : Option (Text × Text) → Option Text
userinfo_of none = none
userinfo_of (some (left, right)) = some left

abbrev pub hostport_of : Text → Option (Text × Text) → Text
hostport_of authority none = authority
hostport_of authority (some (left, right)) = right

abbrev hostless_parts : RawUrlTokens → Text → Option Text → Option Text → SplitParts
hostless_parts t path query fragment = record {
  parts = record {
    scheme = t.scheme;
    userinfo = none;
    raw_host = [];
    port = none;
    path = path;
    query = query;
    fragment = fragment;
  };
  bracketed = false;
}

abbrev pub host_parts : RawUrlTokens → Option Text → HostPort → SplitParts
host_parts t userinfo h = record {
  parts = record {
    scheme = t.scheme;
    userinfo = userinfo;
    raw_host = h.raw_host;
    port = h.port;
    path = t.path;
    query = t.query;
    fragment = t.fragment;
  };
  bracketed = h.bracketed;
}

module _ (classes : Classes) where
  abbrev pub host_accepted : HostPort → Bool
  host_accepted h =
      if h.bracketed
      then not (is_none (analyze_ipv6 h.raw_host))
      else host_is_valid classes h.raw_host

  abbrev pub with_host : RawUrlTokens → Option Text → Option HostPort → Option SplitParts
  with_host t userinfo none = none
  with_host t userinfo (some h) =
      if not (host_accepted h) then none else some (host_parts t userinfo h)

  abbrev pub authority_parts : RawUrlTokens → Option SplitParts
  authority_parts t =
      let cut = cut_last b'@' t.authority in
      with_host t (userinfo_of cut) (host_port (hostport_of t.authority cut))

  unfoldable pub split_raw_parts : RawUrlTokens → Option SplitParts
  unfolding opaque_body has_parseable_authority_introducer host_port host_is_valid analyze_ipv6
  split_raw_parts t =
      if t.opaque
      then some (hostless_parts t (opaque_body t) none none)
      else if scheme_is (codes "file") t.scheme && is_empty t.authority
      then some (hostless_parts t t.path t.query t.fragment)
      else if not (has_parseable_authority_introducer t)
      then none
      else authority_parts t

  unfoldable pub is_bare_single_label : SplitParts → Bool
  unfolding strip_invisible analyze_ipv4
  is_bare_single_label s =
      let host = strip_invisible classes s.parts.raw_host in
      if not (is_none s.parts.scheme) || s.bracketed
      then false
      else if is_empty host || contains b'.' host
      then false
      else is_none (analyze_ipv4 host)

  abbrev pub parsed_of : Option SplitParts → Option RawParts
  parsed_of none = none
  parsed_of (some s) = if is_bare_single_label s then none else some s.parts

  unfoldable pub parse_raw_parts : RawUrlTokens → Option RawParts
  unfolding split_raw_parts is_bare_single_label
  parse_raw_parts t = parsed_of (split_raw_parts t)

  abbrev pub bare_label_of : Option SplitParts → Option Text
  bare_label_of none = none
  bare_label_of (some s) = if is_bare_single_label s then some s.parts.raw_host else none

  unfoldable pub bare_single_label_host : RawUrlTokens → Option Text
  unfolding split_raw_parts is_bare_single_label
  bare_single_label_host t = bare_label_of (split_raw_parts t)
