-- ===== src/Url/Facts.antt =====
-- packages/core/src/parse: prepare.ts, host-facts.ts, the lookup of psl.ts, context.ts, parse.ts and
-- authority-region.ts. The list of public suffixes (`tldts`) and the Unicode form of a host (`tr46`)
-- are arguments; the options that a context carries along are not modelled.
use linklint.Common.{
  Bool, List, Option, Text, [], contains, drop_last, ends_in, if◌then◌else◌, is_empty, is_none,
  none, not, some, split, trim, ℕ, ◌&&◌, ◌||◌, ◌∷◌,
}
use linklint.Ipv4.{analyze_ipv4}
use linklint.Ipv6.{analyze_ipv6}
use linklint.Url.Chars.{Classes, strip_invisible}
use linklint.Url.Tokens.{RawUrlTokens, tokenize_raw_url}
use linklint.Url.Parts.{RawParts, parse_raw_parts}

pub record PslResult : Type 0 where
  pub registrable_domain : Option Text
  pub public_suffix : Option Text
  pub subdomain : Option Text
  pub is_ip : Bool

pub record HostFacts : Type 0 where
  pub host_text : Text
  pub is_ip : Bool
  pub psl : PslResult
  pub host_unicode : Text
  pub host_labels : List Text

pub record ParsedParts : Type 0 where
  pub scheme : Option Text
  pub userinfo : Option Text
  pub effective_host : Option Text
  pub registrable_domain : Option Text
  pub public_suffix : Option Text
  pub subdomain : Option Text
  pub host_labels : List Text
  pub port : Option ℕ
  pub path : Text
  pub query : Option Text
  pub fragment : Option Text
  pub is_ip : Bool

pub record InspectionContext : Type 0 where
  pub input : Text
  pub scheme : Option Text
  pub userinfo : Option Text
  pub raw_host : Text
  pub host_text : Text
  pub host_unicode : Text
  pub is_ip : Bool
  pub host_labels : List Text
  pub registrable_domain : Option Text
  pub registrable_domain_lower : Option Text
  pub public_suffix : Option Text
  pub public_suffix_tld : Option Text
  pub subdomain : Option Text
  pub subdomain_labels : List Text
  pub port : Option ℕ
  pub path : Text
  pub query : Option Text
  pub fragment : Option Text
  pub parsed : ParsedParts

pub record AuthorityRegion : Type 0 where
  pub scheme : Option Text
  pub protocol_relative : Bool
  pub separator : Text
  pub authority : Text
  pub path : Text
  pub fragment : Option Text
  pub opaque : Bool

unfoldable pub authority_region : RawUrlTokens → AuthorityRegion
authority_region t = record {
  scheme = t.scheme;
  protocol_relative = t.protocol_relative;
  separator = t.authority_introducer;
  authority = t.authority;
  path = t.path;
  fragment = t.fragment;
  opaque = t.opaque;
}

-- The third-party code that the parser calls.
pub record Libraries : Type 0 where
  pub classes : Classes
  pub analyze_host : Text → PslResult
  pub to_unicode : Text → Text
  pub lower : Text → Text

abbrev pub empty_psl : Bool → PslResult
empty_psl is_ip = record {
  registrable_domain = none;
  public_suffix = none;
  subdomain = none;
  is_ip = is_ip;
}

abbrev pub last_label : List Text → Text
last_label [] = []
last_label (p ∷ []) = p
last_label (p ∷ q ∷ ps) = last_label (q ∷ ps)

abbrev pub nonempty : Option Text → Option Text
nonempty none = none
nonempty (some []) = none
nonempty (some (c ∷ cs)) = some (c ∷ cs)

abbrev pub split_or_empty : Option Text → List Text
split_or_empty none = []
split_or_empty (some s) = split b'.' s

abbrev pub map_text {ℓ} : {B : Type ℓ} → (Text → B) → Option Text → Option B
map_text f none = none
map_text f (some s) = some (f s)

module _ (libraries : Libraries) where
  abbrev pub host_is_ip : Text → Bool
  host_is_ip host_text =
      not (is_empty host_text) && not (is_none (analyze_ipv4 host_text))
      || not (is_empty host_text)
        && contains b':' host_text
        && not (is_none (analyze_ipv6 host_text))

  unfoldable pub derive_host_facts : Text → HostFacts
  unfolding strip_invisible analyze_ipv4 analyze_ipv6 split
  derive_host_facts raw_host =
      let host_text = strip_invisible libraries.classes raw_host in
      let is_ip = host_is_ip host_text in
      record {
        host_text = host_text;
        is_ip = is_ip;
        psl =
            if is_empty host_text || is_ip
            then empty_psl is_ip
            else libraries.analyze_host host_text;
        host_unicode =
            if is_empty host_text || is_ip then host_text else libraries.to_unicode host_text;
        host_labels =
            if is_empty host_text
            then []
            else if is_ip && contains b':' host_text
            then host_text ∷ []
            else split b'.' (if ends_in b'.' host_text then drop_last host_text else host_text);
      }

  unfoldable pub build_parsed_url : RawParts → HostFacts → ParsedParts
  build_parsed_url raw facts = record {
    scheme = raw.scheme;
    userinfo = raw.userinfo;
    effective_host = if is_empty facts.host_text then none else some facts.host_text;
    registrable_domain = facts.psl.registrable_domain;
    public_suffix = facts.psl.public_suffix;
    subdomain = facts.psl.subdomain;
    host_labels = facts.host_labels;
    port = raw.port;
    path = raw.path;
    query = raw.query;
    fragment = raw.fragment;
    is_ip = facts.psl.is_ip;
  }

  unfoldable pub build_inspection_context :
      Text → RawParts → HostFacts → ParsedParts → InspectionContext
  build_inspection_context input raw facts parsed = record {
    input = input;
    scheme = raw.scheme;
    userinfo = raw.userinfo;
    raw_host = raw.raw_host;
    host_text = facts.host_text;
    host_unicode = facts.host_unicode;
    is_ip = facts.psl.is_ip;
    host_labels = facts.host_labels;
    registrable_domain = facts.psl.registrable_domain;
    registrable_domain_lower = map_text libraries.lower facts.psl.registrable_domain;
    public_suffix = facts.psl.public_suffix;
    public_suffix_tld =
        map_text (λ s. last_label (split b'.' s)) (nonempty facts.psl.public_suffix);
    subdomain = facts.psl.subdomain;
    subdomain_labels = split_or_empty (nonempty facts.psl.subdomain);
    port = raw.port;
    path = raw.path;
    query = raw.query;
    fragment = raw.fragment;
    parsed = parsed;
  }

  abbrev pub inspection_context_of : Text → Option RawParts → Option InspectionContext
  inspection_context_of input none = none
  inspection_context_of input (some raw) =
      let facts = derive_host_facts raw.raw_host in
      some (build_inspection_context input raw facts (build_parsed_url raw facts))

  unfoldable pub parse_prepared : Text → RawUrlTokens → Option InspectionContext
  unfolding parse_raw_parts derive_host_facts build_parsed_url build_inspection_context
  parse_prepared input t = inspection_context_of input (parse_raw_parts libraries.classes t)

  unfoldable pub parse : Text → Option InspectionContext
  unfolding parse_prepared tokenize_raw_url
  parse input =
      let prepared = trim input in
      if is_empty prepared then none else parse_prepared input (tokenize_raw_url prepared)
