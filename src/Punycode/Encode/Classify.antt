-- ===== src/Punycode/Encode/Classify.antt =====
-- The classification of a label ends (packages/core/src/unicode/punycode.ts).
use mathlib.Core.Path.{subst}
use linklint.Common.{
  ==_iff, All, Bool, Bool-cases, Text, [], arith, contains, drop, false, inl, inr, length, refl,
  suc, text_eq, true, zero, ℕ, ◌<◌, ◌==◌, ◌^◌, ◌||◌, ◌∷◌, ◌≡◌,
}
use linklint.Enrich.Plan.Rounds.Settles.{All-weaken}
use linklint.Punycode.{
  Decoding, decode_ace_label, decode_payload, decoded, failed, is_unicode_scalar, maxint,
  out_of_fuel,
}
use linklint.Punycode.Decoded.{Holds, decode_payload-Holds}
use linklint.Punycode.Encode.{
  Classification, Encoding, at_decoding, at_encoding, canonical_label, classify_ace_label,
  encode_ace_label, encoded, encoding_out_of_fuel, malformed, no_encoding, non_canonical_encoding,
  unclassified,
}
use linklint.Punycode.Encode.Ends.{encode_ace_label-Ends, is_encoding_out_of_fuel}

abbrev pub is_classified : Classification → Bool
is_classified unclassified = false
is_classified canonical_label = true
is_classified non_canonical_encoding = true
is_classified (malformed code) = true

at_encoding-Ends :
    (lower : Text) (v : Encoding)
    → is_encoding_out_of_fuel v ≡ false
    → is_classified (at_encoding lower v) ≡ true
at_encoding-Ends lower encoding_out_of_fuel h = absurd (ground arith)
at_encoding-Ends lower no_encoding h = refl
at_encoding-Ends lower (encoded out) h = elim (Bool-cases (text_eq out lower)) [
  | inl same ↦ rw same refl
  | inr other' ↦ rw other' refl
]

contains-All : (P : ℕ → Type 0) (u : ℕ) (cs : Text) → All P cs → contains u cs ≡ true → P u
contains-All P u [] h k = absurd (ground arith)
contains-All P u (c ∷ cs) h k = elim (Bool-cases (c == u)) [
  | inl same ↦ subst P ((==_iff c u).0 same) (h.0)
  | inr other' ↦ contains-All P u cs h.1 (rw other' at k)
]

small-from :
    (u : ℕ) (b : Bool) → (b ≡ true → u < maxint) → b || is_unicode_scalar u ≡ true → u < maxint
small-from u true f h = f refl
small-from u false f h = ground (arith, h)

decoded-small :
    (payload out : Text)
    → All (λ c. c < maxint) payload
    → All (λ u. contains u payload || is_unicode_scalar u ≡ true) out
    → All (λ c. c < maxint) out
decoded-small payload [] h k = tt
decoded-small payload (u ∷ us) h k = (
  small-from u (contains u payload) (contains-All (λ c. c < maxint) u payload h) (k.0),
  decoded-small payload us h k.1,
)

at_decoding-Ends :
    (lower payload : Text) (d : Decoding)
    → All (λ c. c < maxint) payload
    → Holds (λ u. contains u payload || is_unicode_scalar u) (length payload) d
    → is_classified (at_decoding lower d) ≡ true
unfolding at_decoding
at_decoding-Ends lower payload out_of_fuel h k = absurd k
at_decoding-Ends lower payload (failed code) h k = refl
at_decoding-Ends lower payload (decoded cps) h k =
    at_encoding-Ends lower (encode_ace_label cps)
      (encode_ace_label-Ends cps (decoded-small payload cps h k.1))

drop-All : (P : ℕ → Type 0) (n : ℕ) (cs : Text) → All P cs → All P (drop n cs)
drop-All P zero cs h = h
drop-All P (suc n) [] h = tt
drop-All P (suc n) (c ∷ cs) h = drop-All P n cs h.1

-- Classification is total on any label of code units: decoding and encoding again both end, so that
-- each label is malformed with a cause, canonical, or not the canonical encoding of its decoding.
pub classify_ace_label-Ends :
    (label : Text) → All (λ c. c < 2 ^ 16) label → is_classified (classify_ace_label label) ≡ true
unfolding classify_ace_label decode_ace_label
classify_ace_label-Ends label h =
    at_decoding-Ends label (drop 4 label) (decode_payload (drop 4 label))
      (All-weaken (drop 4 label) (λ c k. omega (arith, k)) (drop-All (λ c. c < 2 ^ 16) 4 label h))
      (decode_payload-Holds (drop 4 label))
