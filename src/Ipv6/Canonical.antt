-- ===== src/Ipv6/Canonical.antt =====
-- The canonical spelling of packages/core/src/parse/ip.ts is read back as the same address.
use mathlib.Core.Path.{subst}
use mathlib.Core.Option.{some_inj}
use native.Mathlib.Nat.{zero-add, suc-add}
use linklint.Common.{
  ==_iff, All, Bool-cases, List, Option, Text, [], ap, arith, contains, drop, false, inl, inr,
  is_empty, length, length-append, length-replicate, lower_ascii, ltb, map, none, not, refl, some,
  suc, sym, take, text_eq, text_eq_iff, true, zero, ℕ, ◌++◌, ◌+◌, ◌==◌, ◌||◌, ◌∙◌, ◌∷◌, ◌≡◌,
}
use linklint.Ipv6.{
  Ipv6Analysis, analysis, analyze_ipv6, canonicalize_ipv6, doubles, groups_of, of_groups, runs_from,
  search_start, split_double, to_hex, unwrap_low32_ipv4,
}
use linklint.Ipv6.Hextets.{IsHextet, contains-map}
use linklint.Ipv6.Spelling.{
  IsPlain, Spells, hextets_text, hextets_text-Spells, lower_ascii-plain, shortened,
  shortened-Spells,
}
use linklint.Ipv6.ZeroRuns.{Run, runs_from-Run, zeros}
use linklint.Ipv6.Ranges.{Hextets, groups_of-Hextets}

take-map : (pre rest : List ℕ) → take (length pre) (map to_hex (pre ++ rest)) ≡ map to_hex pre
take-map [] rest = refl
take-map (g ∷ gs) rest = ap (λ t. to_hex g ∷ t) (take-map gs rest)

drop-zeros : (n : ℕ) (post : List ℕ) → drop n (map to_hex (zeros n ++ post)) ≡ map to_hex post
drop-zeros zero post = refl
drop-zeros (suc n) post = drop-zeros n post

drop-map :
    (pre : List ℕ) (n : ℕ) (post : List ℕ)
    → drop (length pre + n) (map to_hex (pre ++ (zeros n ++ post))) ≡ map to_hex post
drop-map [] n post = rw zero-add (drop-zeros n post)
drop-map (g ∷ gs) n post = rw suc-add (drop-map gs n post)

take-Run :
    (groups : List ℕ) (start n : ℕ) (r : Run groups start n)
    → take start (map to_hex groups) ≡ map to_hex r.pre
take-Run groups start n r =
    ap (λ t. take t (map to_hex groups)) (sym r.starts)
    ∙ ap (λ t. take (length r.pre) (map to_hex t)) r.whole
    ∙ take-map r.pre (zeros n ++ r.post)

drop-Run :
    (groups : List ℕ) (start n : ℕ) (r : Run groups start n)
    → drop (start + n) (map to_hex groups) ≡ map to_hex r.post
drop-Run groups start n r =
    ap (λ t. drop (t + n) (map to_hex groups)) (sym r.starts)
    ∙ ap (λ t. drop (length r.pre + n) (map to_hex t)) r.whole
    ∙ drop-map r.pre n r.post

-- The spelling with the best run, and without one.
canonical_long :
    (groups : List ℕ)
    → ltb (runs_from 0 groups search_start).best_len 2 ≡ true
    → canonicalize_ipv6 groups ≡ hextets_text groups
unfolding canonicalize_ipv6 hextets_text
canonical_long groups h = rw h

canonical_short :
    (groups : List ℕ)
    → ltb (runs_from 0 groups search_start).best_len 2 ≡ false
    → (r : Run groups
        (runs_from 0 groups search_start).best_start
        (runs_from 0 groups search_start).best_len)
    → canonicalize_ipv6 groups ≡ shortened r.pre r.post
unfolding canonicalize_ipv6 shortened hextets_text
canonical_short groups h r = rw (h, take-Run groups _ _ r, drop-Run groups _ _ r)

All-parts : (xs ys : List ℕ) → All IsHextet (xs ++ ys) → All IsHextet xs × All IsHextet ys
All-parts [] ys h = (tt, h)
All-parts (x ∷ xs) ys h = ((h.0, (All-parts xs ys h.1).0), (All-parts xs ys h.1).1)

short-Spells :
    (groups : List ℕ) (start n : ℕ)
    → (r : Run groups start n) → ltb n 2 ≡ false
    → length groups ≡ 8
    → All IsHextet groups
    → Spells (shortened r.pre r.post) groups
short-Spells groups start n r long len h =
    let parts = All-parts r.pre (zeros n ++ r.post) (subst (All IsHextet) r.whole h) in
    let after = All-parts (zeros n) r.post parts.1 in
    let total : length r.pre + length r.post + n ≡ 8 = omega (
      arith,
      ap length r.whole,
      length-append r.pre (zeros n ++ r.post),
      length-append (zeros n) r.post,
      length-replicate {A = ℕ} n 0,
    ) in
    subst (Spells (shortened r.pre r.post)) (sym r.whole)
      (shortened-Spells r.pre r.post n total (ground arith) parts.0 after.1)

canonicalize_ipv6-Spells :
    (groups : List ℕ)
    → length groups ≡ 8
    → All IsHextet groups
    → Spells (canonicalize_ipv6 groups) groups
canonicalize_ipv6-Spells groups n h =
    elim (Bool-cases (ltb (runs_from 0 groups search_start).best_len 2)) [
      | inl short ↦ rw (canonical_long groups short) (hextets_text-Spells groups n h)
      | inr long ↦
          let r = runs_from-Run groups in
          rw (canonical_short groups long r) (short-Spells groups _ _ r long n h)
    ]

contains-is_empty : (c : ℕ) (s : Text) → contains c s ≡ true → is_empty s ≡ false
contains-is_empty c [] h = cc
contains-is_empty c (d ∷ ds) h = refl

analyze-Spells :
    (s : Text) (groups : List ℕ)
    → length groups ≡ 8
    → Spells s groups
    → analyze_ipv6 s ≡ some (analysis s groups)
unfolding analyze_ipv6
analyze-Spells s groups n spells =
    let ok : contains b'%' s ≡ false = contains-map IsPlain b'%' s (λ d u. u.2) spells.plain in
    rw (contains-is_empty b':' s spells.colon, spells.colon, ok, spells.single, spells.reads, n)

-- The canonical spelling of eight hextets is read as these hextets, is its own canonical spelling
-- and is not flagged; the embedded IPv4 address is that of the hextets.
pub analyze_ipv6-canonicalize_ipv6 :
    (groups : List ℕ)
    → length groups ≡ 8
    → All IsHextet groups
    → analyze_ipv6 (canonicalize_ipv6 groups)
      ≡ some (record {
        obfuscated = false;
        canonical = canonicalize_ipv6 groups;
        embedded_ipv4 = unwrap_low32_ipv4 groups;
      })
analyze_ipv6-canonicalize_ipv6 groups n h =
    let spells = canonicalize_ipv6-Spells groups n h in
    let s = canonicalize_ipv6 groups in
    let same : text_eq (lower_ascii s) s ≡ true =
      (text_eq_iff (lower_ascii s) s).1 (lower_ascii-plain s spells.plain) in
    analyze-Spells s groups n spells ∙ rw same

-- What passes the tests of the whole literal.
guards_passed :
    (host : Text) (a : Ipv6Analysis)
    → analyze_ipv6 host ≡ some a
    → of_groups host (groups_of host (split_double host)) ≡ some a
unfolding analyze_ipv6
guards_passed host a h =
    elim (Bool-cases (is_empty host || not (contains b':' host) || contains b'%' host)) [
      | inl bad ↦ let e = rw bad at h in cc
      | inr shape ↦ elim (Bool-cases (ltb 1 (doubles host))) [
        | inl many ↦ let e = rw (shape, many) at h in cc
        | inr few ↦ rw (shape, few) at h
      ]
    ]

-- What a literal that is accepted stands for.
abbrev StandsFor : Ipv6Analysis → List ℕ → Type 0
StandsFor a groups =
    (length groups ≡ 8)
    × All IsHextet groups
    × (a.canonical ≡ canonicalize_ipv6 groups)
    × (a.embedded_ipv4 ≡ unwrap_low32_ipv4 groups)

of_groups-StandsFor :
    (host : Text) (m : Option (List ℕ)) (a : Ipv6Analysis)
    → Hextets m
    → of_groups host m ≡ some a
    → (groups : List ℕ) × StandsFor a groups
of_groups-StandsFor host none a k h = cc
of_groups-StandsFor host (some groups) a k h = elim (Bool-cases (length groups == 8)) [
  | inl eight ↦
      let e : some (analysis host groups) ≡ some a = rw eight at h in
      let same : analysis host groups ≡ a = some_inj.0 e in
      (
        groups,
        (
          (==_iff (length groups) 8).0 eight,
          k,
          ap (λ (b : Ipv6Analysis). b.canonical) (sym same),
          ap (λ (b : Ipv6Analysis). b.embedded_ipv4) (sym same),
        ),
      )
  | inr other ↦ let e = rw other at h in cc
]

same_analysis :
    (a : Ipv6Analysis) (groups : List ℕ)
    → a.canonical ≡ canonicalize_ipv6 groups
    → a.embedded_ipv4 ≡ unwrap_low32_ipv4 groups
    → ◌≡◌ {A = Ipv6Analysis}
        (record {
          obfuscated = false;
          canonical = canonicalize_ipv6 groups;
          embedded_ipv4 = unwrap_low32_ipv4 groups;
        })
        (record a { obfuscated = false })
same_analysis a groups p q =
    λ i. record { obfuscated = false; canonical = sym p i; embedded_ipv4 = sym q i }

-- The canonical spelling of any literal that is accepted is accepted, is its own canonical
-- spelling, embeds the same IPv4 address and is not flagged as obfuscated.
pub analyze_ipv6-canonical :
    (host : Text) (a : Ipv6Analysis)
    → analyze_ipv6 host ≡ some a
    → analyze_ipv6 a.canonical ≡ some (record a { obfuscated = false })
analyze_ipv6-canonical host a h =
    let (groups, stands) =
      of_groups-StandsFor host _ a (groups_of-Hextets host (split_double host))
        (guards_passed host a h) in
    ap analyze_ipv6 stands.2
    ∙ analyze_ipv6-canonicalize_ipv6 groups stands.0 stands.1
    ∙ ap some (same_analysis a groups stands.2 stands.3)
