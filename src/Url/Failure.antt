-- ===== src/Url/Failure.antt =====
-- packages/core/src/parse/failure.ts: the detail of an input that does not parse.
use linklint.Common.{
  Option, Text, [], codes, if◌then◌else◌, is_empty, length, ltb, none, some, take, ℕ, ◌++◌, ◌∷◌,
}
use linklint.Url.Chars.{Classes}
use linklint.Url.Syntax.{is_known_scheme}
use linklint.Url.Tokens.{RawUrlTokens}
use linklint.Url.Parts.{bare_single_label_host}

abbrev pub max_echo : ℕ
max_echo = 40

-- 0x2026 is the ellipsis, 0x2014 the dash.
unfoldable pub echo : Text → Text
echo region = if ltb max_echo (length region) then take max_echo region ++ (0x2026 ∷ []) else region

abbrev dash : Text
dash = codes " " ++ (0x2014 ∷ codes " ")

module _ (classes : Classes) where
  abbrev pub label_detail : Option Text → Option Text
  label_detail none = none
  label_detail (some host_text) = some (
      codes "no scheme, and the host '"
      ++ (echo host_text
          ++ (codes "' is a single label with no dot"
              ++ (dash
                  ++ (codes
                        "input without a scheme must name a dotted host or carry a scheme such as 'http://'; "
                      ++ codes "the input was not inspected")))))

  unfoldable pub describe_schemeless_failure : RawUrlTokens → Option Text
  unfolding bare_single_label_host echo
  describe_schemeless_failure t = label_detail (bare_single_label_host classes t)

  abbrev pub recognition : Text → Text
  recognition scheme =
      if is_known_scheme scheme
      then codes "is a scheme linklint recognizes"
      else codes "is not a scheme linklint recognizes"

  abbrev pub authority_failure : Text → Text
  authority_failure authority =
      if is_empty authority
      then codes "no authority follows it"
      else codes "the authority region '" ++ (echo authority ++ codes "' is not a host")

  abbrev pub scheme_detail : Text → RawUrlTokens → Text
  scheme_detail scheme t =
      codes "scheme '"
      ++ (scheme
          ++ (codes ":' "
              ++ (recognition scheme
                  ++ (codes ", and "
                      ++ (authority_failure t.authority
                          ++ (dash
                              ++ (codes "the body after '"
                                  ++ (scheme ++ codes ":' was not inspected"))))))))

  abbrev detail_for : Option Text → RawUrlTokens → Option Text
  detail_for none t = describe_schemeless_failure t
  detail_for (some scheme) t = some (scheme_detail scheme t)

  unfoldable pub describe_parse_failure : RawUrlTokens → Option Text
  unfolding describe_schemeless_failure echo is_known_scheme
  describe_parse_failure t = detail_for t.scheme t
