-- ===== src/Ipv4/Canonical.antt =====
-- The canonical form that the analysis renders (packages/core/src/parse/ip.ts).
use mathlib.Core.Path.{subst, sym}
use linklint.Common.{
  Bool, Bool-cases, List, Option, Text, [], arith, contains, ends_in, false, inl, inr, last_unit,
  length, ltb, map, none, not, refl, some, split, split-join, suc, true, zero, ℕ, ◌%◌, ◌&&◌, ◌*◌,
  ◌++◌, ◌+◌, ◌/◌, ◌<◌, ◌==◌, ◌^◌, ◌∙◌, ◌∷◌, ◌≡◌, ◌≢◌, ◌≤◌,
}
use linklint.Ipv4.{
  Ipv4Analysis, Part, analyze_ipv4, decimal, of_packed, of_parts, pack, parse_part, parse_parts,
  strip_trailing_root_dot, to_dotted,
}

-- The test of `count` numbers from `first` on.
sweep : (ℕ → Bool) → (first count : ℕ) → Bool
sweep test first zero = true
sweep test first (suc count) = test first && sweep test (suc first) count

sweep_covers :
    (test : ℕ → Bool) (first count m : ℕ)
    → sweep test first count ≡ true
    → first ≤ m
    → m < first + count
    → test m ≡ true
unfolding sweep
sweep_covers test first zero m h low high = absurd (omega arith)
sweep_covers test first (suc count) m h low high = elim (Bool-cases (first == m)) [
  | inl same ↦
      let same' : first ≡ m = ground arith in subst (λ k. test k ≡ true) same' (ground arith)
  | inr other ↦ sweep_covers test (suc first) count m (ground arith) (ground arith) (omega arith)
]

-- An octet is read back as itself, in decimal and without dots, and does not end in one.
octet_round : ℕ → Bool
octet_round n =
    not (contains b'.' (decimal n))
    && not (ends_in b'.' (decimal n))
    && ltb 0 (length (decimal n))
    && (elim (parse_part (decimal n)) [
      | none ↦ false
      | some p ↦ (p.value == n) && not p.non_decimal
    ])

octet_table : sweep octet_round 0 256 ≡ true
unfolding sweep octet_round parse_part decimal
octet_table = refl

octet_sound : (n : ℕ) → n < 256 → octet_round n ≡ true
octet_sound n h = sweep_covers octet_round 0 256 n octet_table (omega arith) h

module _ (n : ℕ) (h : n < 256) where
  decimal-no_dot : contains b'.' (decimal n) ≡ false
  decimal-no_dot = unfold octet_round in ground (arith, octet_sound n h)

  decimal-ends : ends_in b'.' (decimal n) ≡ false
  decimal-ends = unfold octet_round in ground (arith, octet_sound n h)

  decimal-nonempty : decimal n ≢ []
  decimal-nonempty e = unfold octet_round in ground (arith, octet_sound n h)

  parse_part-decimal : parse_part (decimal n) ≡ some (record { value = n; non_decimal = false })
  parse_part-decimal = unfold octet_round in ground (arith, octet_sound n h)

last_unit-append : (p q : Text) → q ≢ [] → last_unit (p ++ q) ≡ last_unit q
last_unit-append [] q h = refl
last_unit-append (c ∷ []) [] h = absurd (h refl)
last_unit-append (c ∷ []) (d ∷ ds) h = refl
last_unit-append (c ∷ e ∷ es) q h = last_unit-append (e ∷ es) q h

-- The octets of a 32-bit number.
abbrev octets : ℕ → List ℕ
octets n = n / 2 ^ 24 % 256 ∷ n / 2 ^ 16 % 256 ∷ n / 2 ^ 8 % 256 ∷ n % 256 ∷ []

append-ne-nil : (p q : Text) (c : ℕ) → p ++ (c ∷ q) ≢ []
append-ne-nil [] q c e = cc
append-ne-nil (d ∷ ds) q c e = cc

ends_in-append : (p q : Text) → q ≢ [] → ends_in b'.' (p ++ (b'.' ∷ q)) ≡ ends_in b'.' q
ends_in-append p q h =
    rw (ends_in, last_unit-append p (b'.' ∷ q) (λ e. cc))
      (rw (last_unit-append (b'.' ∷ []) q h) refl)

dotted-ends : (n : ℕ) → ends_in b'.' (to_dotted n) ≡ false
unfolding to_dotted
dotted-ends n =
    let a = decimal (n / 2 ^ 24 % 256) in
    let b = decimal (n / 2 ^ 16 % 256) in
    let c = decimal (n / 2 ^ 8 % 256) in
    let d = decimal (n % 256) in
    ends_in-append a (b ++ (b'.' ∷ c ++ (b'.' ∷ d))) (append-ne-nil b (c ++ (b'.' ∷ d)) b'.')
    ∙ ends_in-append b (c ++ (b'.' ∷ d)) (append-ne-nil c d b'.')
    ∙ ends_in-append c d (decimal-nonempty (n % 256) (omega arith))
    ∙ decimal-ends (n % 256) (omega arith)

dotted-split : (n : ℕ) → split b'.' (to_dotted n) ≡ map decimal (octets n)
unfolding to_dotted
dotted-split n =
    let no_dot = λ (m : ℕ). decimal-no_dot (m % 256) (omega arith) in
    split-join b'.' (decimal (n / 2 ^ 24 % 256))
      (decimal (n / 2 ^ 16 % 256) ∷ decimal (n / 2 ^ 8 % 256) ∷ decimal (n % 256) ∷ [])
      (no_dot (n / 2 ^ 24), (no_dot (n / 2 ^ 16), (no_dot (n / 2 ^ 8), (no_dot n, tt))))

parse_parts-octets :
    (a b c d : ℕ)
    → a < 256
    → b < 256
    → c < 256
    → d < 256
    → parse_parts (decimal a ∷ decimal b ∷ decimal c ∷ decimal d ∷ [])
      ≡ some (map (λ v. record { value = v; non_decimal = false }) (a ∷ b ∷ c ∷ d ∷ []))
unfolding parse_parts
parse_parts-octets a b c d ha hb hc hd = rw (
  parse_part-decimal a ha,
  parse_part-decimal b hb,
  parse_part-decimal c hc,
  parse_part-decimal d hd,
)

pack-octets :
    (a b c d : ℕ)
    → a < 256
    → b < 256
    → c < 256
    → d < 256
    → pack 0 4 (map (λ v. record { value = v; non_decimal = false }) (a ∷ b ∷ c ∷ d ∷ []))
      ≡ some (a * 2 ^ 24 + b * 2 ^ 16 + c * 2 ^ 8 + d)
unfolding pack
pack-octets a b c d ha hb hc hd = ground arith

strip-dotted : (n : ℕ) → strip_trailing_root_dot (to_dotted n) ≡ to_dotted n
unfolding strip_trailing_root_dot
strip-dotted n = ground (arith, dotted-ends n)

-- A dotted address is read as the number that it renders, and is not obfuscated.
pub analyze_ipv4-to_dotted :
    (n : ℕ)
    → n < 2 ^ 32
    → analyze_ipv4 (to_dotted n) ≡ some (record { obfuscated = false; canonical = to_dotted n })
unfolding analyze_ipv4 of_packed
analyze_ipv4-to_dotted n h =
    let a = n / 2 ^ 24 % 256 in
    let b = n / 2 ^ 16 % 256 in
    let c = n / 2 ^ 8 % 256 in
    let d = n % 256 in
    let whole : a * 2 ^ 24 + b * 2 ^ 16 + c * 2 ^ 8 + d ≡ n = omega arith in
    rw
      (
        strip-dotted n,
        dotted-split n,
        parse_parts-octets a b c d (omega arith) (omega arith) (omega arith) (omega arith),
        pack-octets a b c d (omega arith) (omega arith) (omega arith) (omega arith),
        whole,
      )
      (ground arith)

of_packed-form :
    (parts : List Part) (o : Option ℕ) (r : Ipv4Analysis)
    → of_packed parts o ≡ some r
    → (n : ℕ) × (n < 2 ^ 32) × (r.canonical ≡ to_dotted n)
unfolding of_packed
of_packed-form parts none r h = absurd (ground arith)
of_packed-form parts (some full) r h = (full, ground arith, ground arith)

of_parts-form :
    (o : Option (List Part)) (r : Ipv4Analysis)
    → of_parts o ≡ some r
    → (n : ℕ) × (n < 2 ^ 32) × (r.canonical ≡ to_dotted n)
unfolding of_parts
of_parts-form none r h = absurd (ground arith)
of_parts-form (some parts) r h = of_packed-form parts (pack 0 4 parts) r h

analyze_ipv4-form :
    (host : Text) (r : Ipv4Analysis)
    → analyze_ipv4 host ≡ some r
    → (n : ℕ) × (n < 2 ^ 32) × (r.canonical ≡ to_dotted n)
unfolding analyze_ipv4
analyze_ipv4-form host r h =
    of_parts-form (parse_parts (split b'.' (strip_trailing_root_dot host))) r (ground arith)

-- Whatever form of IPv4 address the analysis accepts, it accepts the canonical form that it answers
-- with, gives it back unchanged and does not call it obfuscated.
pub analyze_ipv4-canonical :
    (host : Text) (r : Ipv4Analysis)
    → analyze_ipv4 host ≡ some r
    → analyze_ipv4 r.canonical ≡ some (record { obfuscated = false; canonical = r.canonical })
analyze_ipv4-canonical host r h =
    let (n, lt, e) = analyze_ipv4-form host r h in
    subst (λ t. analyze_ipv4 t ≡ some (record { obfuscated = false; canonical = t })) (sym e)
      (analyze_ipv4-to_dotted n lt)
