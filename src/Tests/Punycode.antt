-- ===== src/Tests/Punycode.antt =====
-- Runs of packages/core/src/unicode/punycode.ts.
use linklint.Common.{arith, codes, contains, refl, true, ◌||◌, ◌∷◌, ◌≡◌}
use linklint.Punycode.{
  adapt, at_integer, decode_ace_label, decode_from, decode_payload, decoded, empty_ace_payload,
  failed, invalid_punycode_digit, is_unicode_scalar, punycode_overflow, read_integer, shrink,
  truncated_punycode_input,
}
use linklint.Punycode.Encode.{
  at_decoding, canonical_label, classify_ace_label, encode_ace_label, encode_from, encode_integer,
  encode_round, malformed, non_canonical_encoding, with_integer,
}
use linklint.Punycode.Encode.Classify.{classify_ace_label-Ends, is_classified}
use linklint.Punycode.Decoded.{Holds, decode_payload-Holds}

-- The label of `münchen`, the payload without an integer, one cut short, and one that overflows.
decodings :
    (decode_ace_label (codes "xn--mnchen-3ya") ≡ decoded (109 ∷ 252 ∷ codes "nchen"))
    × (decode_ace_label (codes "xn--abc-") ≡ decoded (codes "abc"))
    × (decode_ace_label (codes "xn--") ≡ failed empty_ace_payload)
    × (decode_ace_label (codes "xn--z") ≡ failed truncated_punycode_input)
    × (decode_ace_label (codes "xn--a_b") ≡ failed invalid_punycode_digit)
    × (decode_ace_label (codes "xn--99999999") ≡ failed punycode_overflow)
unfolding decode_ace_label decode_payload decode_from read_integer at_integer adapt shrink
decodings = (refl, refl, refl, refl, refl, refl)

decode_payload-Holds_example :
    Holds
      (λ u. contains u (codes "mnchen-3ya") || is_unicode_scalar u)
      10
      (decode_payload (codes "mnchen-3ya"))
decode_payload-Holds_example = decode_payload-Holds (codes "mnchen-3ya")

classifications :
    (classify_ace_label (codes "xn--mnchen-3ya") ≡ canonical_label)
    × (classify_ace_label (codes "xn--abc-") ≡ non_canonical_encoding)
    × (classify_ace_label (codes "xn--z") ≡ malformed truncated_punycode_input)
unfolding classify_ace_label at_decoding encode_ace_label encode_from encode_round encode_integer
    with_integer decode_ace_label decode_payload decode_from read_integer at_integer adapt shrink
classifications = (refl, refl, refl)

classify_ace_label-Ends_example : is_classified (classify_ace_label (codes "xn--mnchen-3ya")) ≡ true
classify_ace_label-Ends_example = classify_ace_label-Ends (codes "xn--mnchen-3ya") (ground arith)
