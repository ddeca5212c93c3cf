-- ===== src/Punycode/Decoded.antt =====
-- What a decoded label holds (packages/core/src/unicode/punycode.ts).
use linklint.Common.{
  All, Bool, Bool-cases, Option, Text, [], arith, contains, inl, inr, length, ltb, none, refl, some,
  suc, true, zero, ℕ, ◌%◌, ◌*◌, ◌+◌, ◌-◌, ◌/◌, ◌<◌, ◌==◌, ◌||◌, ◌∷◌, ◌≡◌, ◌≤◌,
}
use linklint.Punycode.{
  Decoding, Integer, adapt, at_digit, at_integer, decode_digit, decode_from, decode_payload,
  decoded, digits, failed, insert_at, integer, is_unicode_scalar, maxint, out_of_fuel, read_integer,
  refused, split_payload, threshold,
}

-- An integer leaves fewer units than it was read from.
abbrev Shrinks : ℕ → Integer → Type 0
Shrinks bound (refused code) = Unit {0}
Shrinks bound (integer i rest) = length rest < bound

at_digit-Shrinks :
    (bias bound : ℕ) (o : Option ℕ) (rest : Text) (k i w : ℕ) (next : ℕ → ℕ → Integer)
    → length rest < bound
    → ((i' w' : ℕ) → Shrinks bound (next i' w'))
    → Shrinks bound (at_digit bias o rest k i w next)
at_digit-Shrinks bias bound none rest k i w next h f = tt
at_digit-Shrinks bias bound (some digit) rest k i w next h f =
    let t = threshold k bias in
    elim (Bool-cases (ltb ((maxint - i) / w) digit)) [
      | inl large ↦ rw large tt
      | inr fits ↦ elim (Bool-cases (ltb digit t)) [
        | inl last ↦ rw (fits, last) h
        | inr more ↦ elim (Bool-cases (ltb (maxint / (digits - t)) w)) [
          | inl wide ↦ rw (fits, more, wide) tt
          | inr going ↦ rw (fits, more, going) (f (i + digit * w) (w * (digits - t)))
        ]
      ]
    ]

read_integer-Shrinks :
    (bias bound : ℕ) (cs : Text) (k i w : ℕ)
    → length cs ≤ bound
    → Shrinks bound (read_integer bias cs k i w)
unfolding read_integer
read_integer-Shrinks bias bound [] k i w h = tt
read_integer-Shrinks bias bound (c ∷ cs) k i w h =
    at_digit-Shrinks bias bound (decode_digit c) cs k i w (read_integer bias cs (k + digits))
      (omega arith) (λ i' w'. read_integer-Shrinks bias bound cs (k + digits) i' w' (omega arith))

insert_at-length : (i n : ℕ) (out : Text) → length (insert_at i n out) ≡ suc (length out)
insert_at-length zero n out = refl
insert_at-length (suc i) n [] = refl
insert_at-length (suc i) n (c ∷ cs) = omega (arith, insert_at-length i n cs)

insert_at-All :
    (p : ℕ → Bool) (i n : ℕ) (out : Text)
    → p n ≡ true
    → All (λ c. p c ≡ true) out
    → All (λ c. p c ≡ true) (insert_at i n out)
insert_at-All p zero n out h k = (h, k)
insert_at-All p (suc i) n [] h k = (h, tt)
insert_at-All p (suc i) n (c ∷ cs) h k = (k.0, insert_at-All p i n cs h k.1)

-- A decoding ends; what it decodes to is no longer than the bound and passes the test.
abbrev pub Holds : (ℕ → Bool) → ℕ → Decoding → Type 0
Holds p bound out_of_fuel = ⊥
Holds p bound (failed code) = Unit {0}
Holds p bound (decoded out) = (length out ≤ bound) × All (λ c. p c ≡ true) out

module _ (p : ℕ → Bool) (scalar : (n : ℕ) → is_unicode_scalar n ≡ true → p n ≡ true)
    (bound : ℕ) where
  at_integer-Holds :
      (left : ℕ) (v : Integer) (out : Text) (n i : ℕ)
      (next : Text → Text → (n i bias : ℕ) → Decoding)
      → Shrinks left v
      → All (λ c. p c ≡ true) out
      → ((rest out' : Text) (n' i' bias' : ℕ)
          → length rest < left
          → length out' ≡ suc (length out)
          → All (λ c. p c ≡ true) out'
          → Holds p bound (next rest out' n' i' bias'))
      → Holds p bound (at_integer v out n i next)
  unfolding at_integer
  at_integer-Holds left (refused code) out n i next h k f = tt
  at_integer-Holds left (integer total rest) out n i next h k f =
      let out_len = length out + 1 in
      let increment = total / out_len in
      elim (Bool-cases (ltb (maxint - n) increment)) [
        | inl large ↦ rw large tt
        | inr fits ↦ elim (Bool-cases (is_unicode_scalar (n + increment))) [
          | inr bad ↦ rw (fits, bad) tt
          | inl good ↦
              rw (fits, good)
                (f rest (insert_at (total % out_len) (n + increment) out) (n + increment)
                  (total % out_len + 1) (adapt (total - i) out_len (i == 0)) h
                  (insert_at-length (total % out_len) (n + increment) out)
                  (insert_at-All p (total % out_len) (n + increment) out
                    (scalar (n + increment) good) k))
        ]
      ]

  decode_from-Holds :
      (fuel : ℕ) (cs out : Text) (n i bias : ℕ)
      → length cs ≤ fuel
      → length out + length cs ≤ bound
      → All (λ c. p c ≡ true) out
      → Holds p bound (decode_from fuel cs out n i bias)
  unfolding decode_from
  decode_from-Holds zero [] out n i bias h b k = (omega arith, k)
  decode_from-Holds (suc fuel) [] out n i bias h b k = (omega arith, k)
  decode_from-Holds zero (c ∷ cs) out n i bias h b k = absurd (omega arith)
  decode_from-Holds (suc fuel) (c ∷ cs) out n i bias h b k =
      at_integer-Holds (length (c ∷ cs)) (read_integer bias (c ∷ cs) digits i 1) out n i
        (decode_from fuel)
        (read_integer-Shrinks bias (length (c ∷ cs)) (c ∷ cs) digits i 1 (omega arith)) k
        (λ rest out' n' i' bias' short grown fine.
          decode_from-Holds fuel rest out' n' i' bias' (omega arith) (omega arith) fine)

split_payload-length :
    (cs : Text) → length (split_payload cs).0 + length (split_payload cs).1 ≤ length cs
split_payload-length [] = omega arith
split_payload-length (c ∷ cs) =
    let ih = split_payload-length cs in
    elim (Bool-cases (contains b'-' cs)) [
      | inl more ↦ rw more (omega arith)
      | inr last ↦ elim (Bool-cases (c == b'-')) [
        | inl hyphen ↦ rw (last, hyphen) (omega arith)
        | inr plain ↦ rw (last, plain) (omega arith)
      ]
    ]

All-cons :
    (c : ℕ) (cs out : Text)
    → All (λ u. contains u cs ≡ true) out
    → All (λ u. contains u (c ∷ cs) ≡ true) out
All-cons c cs [] h = tt
All-cons c cs (u ∷ us) h = (ground (arith, h.0), All-cons c cs us h.1)

split_payload-All : (cs : Text) → All (λ u. contains u cs ≡ true) (split_payload cs).0
split_payload-All [] = tt
split_payload-All (c ∷ cs) = elim (Bool-cases (contains b'-' cs)) [
  | inl more ↦ rw more (ground arith, All-cons c cs (split_payload cs).0 (split_payload-All cs))
  | inr last ↦ elim (Bool-cases (c == b'-')) [
    | inl hyphen ↦ rw (last, hyphen) tt
    | inr plain ↦ rw (last, plain) tt
  ]
]

All-either :
    (cs out : Text)
    → All (λ u. contains u cs ≡ true) out
    → All (λ u. contains u cs || is_unicode_scalar u ≡ true) out
All-either cs [] h = tt
All-either cs (u ∷ us) h = (rw (h.0) refl, All-either cs us h.1)

-- Decoding is total, on any text: it never runs out of fuel. What it answers has no more code points
-- than the payload has units, and each is a Unicode scalar value or a unit of the payload itself.
pub decode_payload-Holds :
    (payload : Text)
    → Holds
        (λ u. contains u payload || is_unicode_scalar u)
        (length payload)
        (decode_payload payload)
unfolding decode_payload
decode_payload-Holds [] = tt
decode_payload-Holds (c ∷ cs) =
    let payload = c ∷ cs in
    let parts = split_payload payload in
    decode_from-Holds (λ u. contains u payload || is_unicode_scalar u) (λ n h. ground (arith, h))
      (length payload) (length parts.1) parts.1 parts.0 128 0 72 (omega arith)
      (split_payload-length payload) (All-either payload parts.0 (split_payload-All payload))
