-- ===== src/Punycode/Encode/Ends.antt =====
-- The loops of `encodeAceLabel` end (packages/core/src/unicode/punycode.ts).
use mathlib.Core.Path.{subst}
use linklint.Common.{
  All, Bool, Bool-cases, Option, Text, [], any, arith, codes, false, if◌then◌else◌, inl, inr,
  is_empty, is_none, leb, length, ltb, none, refl, some, suc, true, zero, ℕ, ◌&&◌, ◌*◌, ◌++◌, ◌+◌,
  ◌-◌, ◌<◌, ◌==◌, ◌∷◌, ◌≡◌, ◌≤◌, ◌⊎◌,
}
use linklint.Punycode.{digits, maxint}
use linklint.Punycode.Encode.{
  Encoder, Encoding, at_code, basic_codes, encode_ace_label, encode_from, encode_integer,
  encode_round, encoded, encoding_of, encoding_out_of_fuel, least_from, no_encoding, then_round,
  with_integer,
}
use linklint.Punycode.Encode.Integers.{encode_integer-some}

-- How many code points are below a bound, and how many are a given one.
abbrev below : ℕ → Text → ℕ
below n [] = 0
below n (c ∷ cs) = (if ltb c n then 1 else 0) + below n cs

abbrev equal : ℕ → Text → ℕ
equal n [] = 0
equal n (c ∷ cs) = (if c == n then 1 else 0) + equal n cs

-- An encoder with so many code points handled.
abbrev Handles : ℕ → Option Encoder → Type 0
Handles h none = ⊥
Handles h (some e) = e.handled ≡ h

with_integer-Handles :
    (basic : ℕ) (e : Encoder) (o : Option Text)
    → is_none o ≡ false
    → Handles (e.handled + 1) (with_integer basic e o)
unfolding with_integer
with_integer-Handles basic e none h = absurd (ground arith)
with_integer-Handles basic e (some ds) h = refl

then_round-Handles :
    (h h' : ℕ) (o : Option Encoder) (next : Encoder → Option Encoder)
    → Handles h o
    → ((e : Encoder) → e.handled ≡ h → Handles h' (next e))
    → Handles h' (then_round o next)
then_round-Handles h h' none next k f = absurd k
then_round-Handles h h' (some e) next k f = f e k

at_code-Handles :
    (n basic cp : ℕ) (e : Encoder)
    → Handles (e.handled + (if cp == n then 1 else 0)) (at_code n basic cp e)
at_code-Handles n basic cp e = elim (Bool-cases (ltb cp n)) [
  | inl less ↦
      let other' : (cp == n) ≡ false = ground (arith, less) in rw (less, other') (omega arith)
  | inr more ↦ elim (Bool-cases (cp == n)) [
    | inr other' ↦ rw (more, other') (omega arith)
    | inl same ↦
        rw (more, same)
          (with_integer-Handles basic e (encode_integer (suc e.delta) e.delta digits e.bias)
            (encode_integer-some (suc e.delta) e.delta digits e.bias (omega arith)))
  ]
]

encode_round-Handles :
    (n basic h : ℕ) (cps : Text) (e : Encoder)
    → e.handled + equal n cps ≡ h
    → Handles h (encode_round n basic cps e)
unfolding encode_round
encode_round-Handles n basic h [] e k = omega arith
encode_round-Handles n basic h (cp ∷ cps) e k =
    then_round-Handles (e.handled + (if cp == n then 1 else 0)) h (at_code n basic cp e)
      (encode_round n basic cps) (at_code-Handles n basic cp e)
      (λ e' k'. encode_round-Handles n basic h cps e' (omega arith))

-- No code point lies between the bound and the least that is not below it.
abbrev Gap : (n m : ℕ) → Text → Type 0
Gap n m cps = All (λ c. (c < n) ⊎ (m ≤ c)) cps

least_from-le : (n : ℕ) (cps : Text) (m : ℕ) → least_from n cps m ≤ m
least_from-le n [] m = omega arith
least_from-le n (cp ∷ cps) m =
    ground (arith, least_from-le n cps (if leb n cp && ltb cp m then cp else m))

taken : (n cp m : ℕ) → (cp < n) ⊎ ((if leb n cp && ltb cp m then cp else m) ≤ cp)
taken n cp m = ground arith

widen : (n m r c : ℕ) → r ≤ m → (c < n) ⊎ (m ≤ c) → (c < n) ⊎ (r ≤ c)
widen n m r c h (inl below') = inl below'
widen n m r c h (inr above) = inr (omega arith)

least_from-Gap : (n : ℕ) (cps : Text) (m : ℕ) → Gap n (least_from n cps m) cps
least_from-Gap n [] m = tt
least_from-Gap n (cp ∷ cps) m =
    let m' = if leb n cp && ltb cp m then cp else m in
    (
      widen n m' (least_from n cps m') cp (least_from-le n cps m') (taken n cp m),
      least_from-Gap n cps m',
    )

-- The least is the bound that the search starts with, or a code point not below `n`.
abbrev Least : (n m r : ℕ) → Text → Type 0
Least n m r cps = (r ≡ m) ⊎ ((n ≤ r) × (1 ≤ equal r cps))

Least-cons :
    (n cp m r : ℕ) (cps : Text) (b : Bool)
    → (leb n cp && ltb cp m) ≡ b
    → Least n (if b then cp else m) r cps
    → Least n m r (cp ∷ cps)
Least-cons n cp m r cps true h (inl kept) = inr (ground arith, ground arith)
Least-cons n cp m r cps false h (inl kept) = inl kept
Least-cons n cp m r cps b h (inr (ge, found)) = inr (ge, ground arith)

least_from-Least : (n : ℕ) (cps : Text) (m : ℕ) → Least n m (least_from n cps m) cps
least_from-Least n [] m = inl refl
least_from-Least n (cp ∷ cps) m =
    Least-cons n cp m (least_from n (cp ∷ cps) m) cps (leb n cp && ltb cp m) refl
      (least_from-Least n cps (if leb n cp && ltb cp m then cp else m))

below-Gap : (n m : ℕ) (cps : Text) → n ≤ m → Gap n m cps → below m cps ≡ below n cps
below-Gap n m [] h g = refl
below-Gap n m (c ∷ cs) h g =
    let ih = below-Gap n m cs h g.1 in
    elim (g.0) [ inl less ↦ ground (arith, less, h, ih) | inr more ↦ ground (arith, more, h, ih) ]

below-suc : (n : ℕ) (cps : Text) → below (n + 1) cps ≡ below n cps + equal n cps
below-suc n [] = refl
below-suc n (c ∷ cs) = ground (arith, below-suc n cs)

below-All : (n m : ℕ) (cps : Text) → Gap n m cps → All (λ c. c < m) cps → below n cps ≡ length cps
below-All n m [] g h = refl
below-All n m (c ∷ cs) g h =
    let ih = below-All n m cs g.1 h.1 in
    elim (g.0) [ inl less ↦ ground (arith, less, ih) | inr more ↦ absurd (omega (arith, h.0)) ]

-- A round for the least code point that is left handles it.
abbrev IsCounted : ℕ → Text → Encoder → Type 0
IsCounted n cps e = e.handled ≡ below n cps

least-counted :
    (n : ℕ) (cps : Text)
    → All (λ c. c < maxint) cps
    → below n cps < length cps
    → (below (least_from n cps maxint) cps ≡ below n cps)
      × (1 ≤ equal (least_from n cps maxint) cps)
least-counted n cps h left = elim (least_from-Least n cps maxint) [
  | inr (ge, found) ↦
      (below-Gap n (least_from n cps maxint) cps ge (least_from-Gap n cps maxint), found)
  | inl kept ↦ absurd (
      omega (
        arith,
        below-All n maxint cps (subst (λ m. Gap n m cps) kept (least_from-Gap n cps maxint)) h,
      ))
]

then_round-some :
    (h : ℕ) (o : Option Encoder) (next : Encoder → Option Encoder)
    → Handles h o
    → ((e : Encoder) → e.handled ≡ h → is_none (next e) ≡ false)
    → is_none (then_round o next) ≡ false
then_round-some h none next k f = absurd k
then_round-some h (some e) next k f = f e k

encode_from-some :
    (fuel : ℕ) (cps : Text) (basic n : ℕ) (e : Encoder)
    → All (λ c. c < maxint) cps
    → IsCounted n cps e
    → length cps ≤ fuel + e.handled
    → is_none (encode_from fuel cps basic n e) ≡ false
unfolding encode_from
encode_from-some zero cps basic n e h k f = elim (Bool-cases (ltb e.handled (length cps))) [
  | inl more ↦ absurd (ground (arith, more, f))
  | inr done ↦ rw done refl
]
encode_from-some (suc fuel) cps basic n e h k f = elim (Bool-cases (ltb e.handled (length cps))) [
  | inr done ↦ rw done refl
  | inl more ↦
      let m = least_from n cps maxint in
      let moved = record e { delta = e.delta + (m - n) * (e.handled + 1) } in
      let counted = least-counted n cps h (ground (arith, more, k)) in
      rw more (
        then_round-some (e.handled + equal m cps) (encode_round m basic cps moved)
          (λ e'. encode_from fuel cps basic (m + 1) (record e' { delta = e'.delta + 1 }))
          (encode_round-Handles m basic (e.handled + equal m cps) cps moved refl)
          (λ e' q.
            encode_from-some fuel cps basic (m + 1) (record e' { delta = e'.delta + 1 }) h
              (omega (arith, below-suc m cps, counted.0, k, q)) (omega (arith, counted.1, f, q))))
]

basic_codes-below : (cps : Text) → length (basic_codes cps) ≡ below 128 cps
basic_codes-below [] = refl
basic_codes-below (c ∷ cs) = ground (arith, basic_codes-below cs)

abbrev pub is_encoding_out_of_fuel : Encoding → Bool
is_encoding_out_of_fuel encoding_out_of_fuel = true
is_encoding_out_of_fuel no_encoding = false
is_encoding_out_of_fuel (encoded out) = false

encoding_of-Ends :
    (o : Option Encoder) → is_none o ≡ false → is_encoding_out_of_fuel (encoding_of o) ≡ false
encoding_of-Ends none h = absurd (ground arith)
encoding_of-Ends (some e) h = refl

pub encode_ace_label-Ends :
    (cps : Text)
    → All (λ c. c < maxint) cps
    → is_encoding_out_of_fuel (encode_ace_label cps) ≡ false
unfolding encode_ace_label
encode_ace_label-Ends cps h = elim (Bool-cases (any (λ c. leb 0x80 c) cps)) [
  | inr plain ↦ rw plain refl
  | inl wide ↦
      let basics = basic_codes cps in
      let start = codes "xn--" ++ basics ++ (if is_empty basics then [] else b'-' ∷ []) in
      let e : Encoder = record { out = start; delta = 0; bias = 72; handled = length basics } in
      rw wide (
        encoding_of-Ends (encode_from (length cps) cps (length basics) 128 e) (
          encode_from-some (length cps) cps (length basics) 128 e h (basic_codes-below cps)
            (omega arith)))
]
