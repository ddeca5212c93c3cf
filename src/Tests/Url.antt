-- ===== src/Tests/Url.antt =====
-- Runs of packages/core/src/parse.
use linklint.Common.{
  Option, Text, [], arith, codes, false, is_digit, lower_ascii, ltb, none, refl, some, true, ◌++◌,
  ◌==◌, ◌||◌, ◌∷◌, ◌≡◌, ◌≤◌,
}
use linklint.Ipv4.{parse_int, parse_part, strip_trailing_root_dot}
use linklint.Url.Chars.{Classes, host_is_valid}
use linklint.Url.Syntax.{is_ascii_letter}
use linklint.Url.Tokens.{RawUrlTokens, tokenize_raw_url, two_slashes}
use linklint.Url.Tokens.Written.{tokenize_raw_url-written, written}
use linklint.Url.Tokens.Regions.{IsSplit, tokenize_raw_url-IsSplit}
use linklint.Url.Tokens.RoundTrip.{url_tokens}
use linklint.Url.Parts.{RawParts, SplitParts, parse_raw_parts, split_raw_parts}
use linklint.Url.Parts.Reading.{IsIntroduced, IsReading, split_raw_parts-IsReading}
use linklint.Url.Parts.Labels.{NamesHost, parse_raw_parts-schemeless}
use linklint.Url.Parts.Written.{authority_text, parse_raw_parts-url, url_parts}
use linklint.Url.Decode.{IsDecoding, bounded_decode, bounded_decode-IsDecoding}
use linklint.Url.Failure.{describe_parse_failure}
use linklint.Url.Facts.{InspectionContext, Libraries, parse}

-- The ASCII part of the Unicode tables, and U+200B.
abbrev classes : Classes
classes = record {
  control_or_format = λ c. ltb c 32 || c == 127 || c == 0x200b;
  letter_mark_number = λ c. is_ascii_letter c || is_digit c;
}

abbrev url : Text
url = codes "hTTps://u:p@x@Example.com:0443/a//b?q?r#f#g"

tokenize_opaque : tokenize_raw_url (codes "JavaScript:alert(1)?x") ≡ record {
  prepared = codes "JavaScript:alert(1)?x";
  raw_scheme = some (codes "JavaScript");
  scheme = some (codes "javascript");
  scheme_delimiter = some (codes ":");
  protocol_relative = false;
  opaque = true;
  authority_introducer = [];
  authority = [];
  path = codes "alert(1)";
  query = some (codes "x");
  fragment = none;
}
unfolding tokenize_raw_url
tokenize_opaque = refl

abbrev parts : RawParts
parts = record {
  scheme = some (codes "https");
  userinfo = some (codes "u:p@x");
  raw_host = codes "Example.com";
  port = some 443;
  path = codes "/a//b";
  query = some (codes "q?r");
  fragment = some (codes "f#g");
}

parse_forms :
    (parse_raw_parts classes (tokenize_raw_url url) ≡ some parts)
    × (parse_raw_parts classes (tokenize_raw_url (codes "http://example.com:65536/")) ≡ none)
    × (parse_raw_parts classes (tokenize_raw_url (codes "http:///example.com")) ≡ none)
    × (parse_raw_parts classes (tokenize_raw_url (codes "//example.com")) ≡ none)
    × (parse_raw_parts classes (tokenize_raw_url (codes "localhost:8080")) ≡ none)
    × (parse_raw_parts classes (tokenize_raw_url (codes "http://[::1]:80x/")) ≡ none)
unfolding parse_raw_parts tokenize_raw_url strip_trailing_root_dot parse_part
parse_forms = (refl, refl, refl, refl, refl, refl)

failure_detail :
    describe_parse_failure classes (tokenize_raw_url (codes "mhtml:a!b"))
    ≡ some (
        codes
          "scheme 'mhtml:' is not a scheme linklint recognizes, and the authority region 'a!b' is not a host "
        ++ (0x2014 ∷ codes " the body after 'mhtml:' was not inspected"))
unfolding describe_parse_failure tokenize_raw_url
failure_detail = refl

tokenize_raw_url-written_example : written (tokenize_raw_url url) ≡ url
tokenize_raw_url-written_example = tokenize_raw_url-written url

tokenize_raw_url-IsSplit_example : IsSplit (tokenize_raw_url url)
tokenize_raw_url-IsSplit_example = tokenize_raw_url-IsSplit url

valid_host : host_is_valid classes (codes "a.b") ≡ true
unfolding host_is_valid
valid_host = refl

port_value : parse_int 10 0 (codes "080") ≤ 65535
unfolding parse_int
port_value = omega arith

parse_raw_parts-url_example :
    parse_raw_parts classes (
      tokenize_raw_url
        (url_tokens
          (codes "Ws")
          (authority_text (some (codes "u@")) (codes "a.b") (some (codes "080")))
          (codes "/c")
          (some (codes "?"))
          (some (codes "f#"))).prepared)
    ≡ some (
        url_parts
          (codes "Ws")
          (some (codes "u@"))
          (codes "a.b")
          (some (codes "080"))
          (codes "/c")
          (some (codes "?"))
          (some (codes "f#")))
parse_raw_parts-url_example =
    parse_raw_parts-url classes (codes "Ws") (some (codes "u@")) (codes "a.b") (some (codes "080"))
      (codes "/c") (some (codes "?")) (some (codes "f#")) (refl, (refl, tt), refl)
      (refl, (refl, (refl, (refl, (refl, (refl, (refl, (refl, (refl, (refl, (refl, tt)))))))))))
      refl ((refl, (refl, tt)), (refl, (refl, tt)), (refl, tt)) refl (refl, refl) (refl, port_value)
      valid_host

abbrev literal : RawUrlTokens
literal = record {
  prepared = codes "http://u@[::1]:8080/";
  raw_scheme = some (codes "http");
  scheme = some (codes "http");
  scheme_delimiter = some (codes ":");
  protocol_relative = false;
  opaque = false;
  authority_introducer = codes "//";
  authority = codes "u@[::1]:8080";
  path = codes "/";
  query = none;
  fragment = none;
}

abbrev literal_parts : SplitParts
literal_parts = record {
  parts = record {
    scheme = some (codes "http");
    userinfo = some (codes "u");
    raw_host = codes "::1";
    port = some 8080;
    path = codes "/";
    query = none;
    fragment = none;
  };
  bracketed = true;
}

split_literal : split_raw_parts classes literal ≡ some literal_parts
unfolding split_raw_parts
split_literal = refl

split_raw_parts-IsReading_example : IsIntroduced literal × IsReading classes literal literal_parts
split_raw_parts-IsReading_example =
    split_raw_parts-IsReading classes literal literal_parts refl refl split_literal

abbrev bare : RawParts
bare = record {
  scheme = none;
  userinfo = none;
  raw_host = codes "a.b";
  port = some 8080;
  path = [];
  query = none;
  fragment = none;
}

parse_bare : parse_raw_parts classes (tokenize_raw_url (codes "a.b:8080")) ≡ some bare
unfolding parse_raw_parts tokenize_raw_url
parse_bare = refl

bare_scheme : (tokenize_raw_url (codes "a.b:8080")).scheme ≡ none
unfolding tokenize_raw_url
bare_scheme = refl

parse_raw_parts-schemeless_example :
    (two_slashes (codes "a.b:8080") ≡ false) × NamesHost classes (codes "a.b")
parse_raw_parts-schemeless_example =
    parse_raw_parts-schemeless classes (codes "a.b:8080") bare parse_bare bare_scheme

decode_forms :
    (bounded_decode (codes "%2525252541") 4
      ≡ record { decoded = codes "%41"; passes = 4; truncated = true })
    × (bounded_decode (codes "a%2") 4
        ≡ record { decoded = codes "a%2"; passes = 0; truncated = false })
unfolding bounded_decode
decode_forms = (refl, refl)

bounded_decode-IsDecoding_example :
    IsDecoding (codes "%2525252541") 0 4 (bounded_decode (codes "%2525252541") 4)
bounded_decode-IsDecoding_example = bounded_decode-IsDecoding (codes "%2525252541") 4

-- The public suffixes and the Unicode form of one host.
abbrev libraries : Libraries
libraries = record {
  classes = classes;
  analyze_host = λ s. record {
    registrable_domain = some (codes "Example.com");
    public_suffix = some (codes "com");
    subdomain = none;
    is_ip = false;
  };
  to_unicode = λ s. s;
  lower = lower_ascii;
}

abbrev context_lower : Option InspectionContext → Option Text
context_lower none = none
context_lower (some context) = context.registrable_domain_lower

parse_context :
    context_lower (parse libraries (codes " https://Example.com./ ")) ≡ some (codes "example.com")
unfolding parse strip_trailing_root_dot parse_part
parse_context = refl
