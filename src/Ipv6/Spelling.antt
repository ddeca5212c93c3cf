-- ===== src/Ipv6/Spelling.antt =====
-- The spellings that ip.ts writes, and the groups that it reads in them.
use linklint.Common.{
  All, All-append, List, Text, [], arith, codes, contains, false, join, leb, length, lower_ascii,
  lower_unit, ltb, map, refl, some, true, ℕ, ◌++◌, ◌+◌, ◌-◌, ◌==◌, ◌∷◌, ◌≡◌, ◌≤◌,
}
use linklint.Ipv6.{doubles, filled, groups_of, parse_hextets, split_double, to_hex}
use linklint.Ipv6.Hextets.{
  IsHexUnit, IsHextet, contains-map, parse_hextets-join, to_hex-IsHexUnit, to_hex-length,
}
use linklint.Ipv6.Doubles.{
  IsPiece, IsSpaced, IsSpaced-join, doubles-IsSpaced, doubles-append, split_double-IsSpaced,
  split_double-append,
}
use linklint.Ipv6.ZeroRuns.{zeros}

-- A unit of a canonical spelling.
abbrev pub IsPlain : ℕ → Type 0
IsPlain c = (lower_unit c ≡ c) × ((c == b'.') ≡ false) × ((c == b'%') ≡ false)

hex_plain : (s : Text) → All IsHexUnit s → All IsPlain s
hex_plain [] h = tt
hex_plain (c ∷ cs) h = ((h.0.1, h.0.3, h.0.4), hex_plain cs h.1)

unfoldable pub hextets_text : List ℕ → Text
hextets_text groups = join b':' (map to_hex groups)

abbrev colon_plain : IsPlain b':'
colon_plain = (refl, refl, refl)

hextets_text-plain : (groups : List ℕ) → All IsHextet groups → All IsPlain (hextets_text groups)
unfolding hextets_text
hextets_text-plain [] h = tt
hextets_text-plain (g ∷ []) h = hex_plain (to_hex g) (to_hex-IsHexUnit g h.0)
hextets_text-plain (g ∷ k ∷ gs) h =
    All-append IsPlain (to_hex g) _ (hex_plain (to_hex g) (to_hex-IsHexUnit g h.0))
      (colon_plain, hextets_text-plain (k ∷ gs) h.1)

text-IsPiece : (s : Text) → 1 ≤ length s → All IsHexUnit s → IsPiece s
text-IsPiece [] n h = absurd (omega arith)
text-IsPiece (c ∷ cs) n h = (h.0.2, colonless_all cs h.1)
  where
    colonless_all : (s : Text) → All IsHexUnit s → All (λ c. (c == b':') ≡ false) s
    colonless_all [] h = tt
    colonless_all (c ∷ cs) h = (h.0.2, colonless_all cs h.1)

pieces : (groups : List ℕ) → All IsHextet groups → All IsPiece (map to_hex groups)
pieces [] h = tt
pieces (g ∷ gs) h =
    (text-IsPiece (to_hex g) (to_hex-length g).0 (to_hex-IsHexUnit g h.0), pieces gs h.1)

hextets_text-IsSpaced : (groups : List ℕ) → All IsHextet groups → IsSpaced (hextets_text groups)
unfolding hextets_text
hextets_text-IsSpaced groups h = IsSpaced-join (map to_hex groups) (pieces groups h)

hextets_text-parse :
    (groups : List ℕ) → All IsHextet groups → parse_hextets (hextets_text groups) ≡ some groups
unfolding hextets_text
hextets_text-parse groups h = parse_hextets-join groups h

pub lower_ascii-plain : (s : Text) → All IsPlain s → lower_ascii s ≡ s
lower_ascii-plain [] h = refl
lower_ascii-plain (c ∷ cs) h = rw (h.0.0, lower_ascii-plain cs h.1)

-- A spelling with the marks of a canonical one, read as its groups.
pub record Spells (s : Text) (groups : List ℕ) : Type 0 where
  pub plain : All IsPlain s
  pub colon : contains b':' s ≡ true
  pub single : ltb 1 (doubles s) ≡ false
  pub reads : groups_of s (split_double s) ≡ some groups

-- Without a run that is worth shortening.
contains_colon_append : (s rest : Text) → contains b':' (s ++ (b':' ∷ rest)) ≡ true
contains_colon_append [] rest = refl
contains_colon_append (c ∷ cs) rest = ground (arith, contains_colon_append cs rest)

pub hextets_text-Spells :
    (groups : List ℕ)
    → length groups ≡ 8
    → All IsHextet groups
    → Spells (hextets_text groups) groups
unfolding hextets_text
hextets_text-Spells [] n h = absurd (omega arith)
hextets_text-Spells (g ∷ []) n h = absurd (omega arith)
hextets_text-Spells (g ∷ k ∷ gs) n h = record {
  plain = hextets_text-plain (g ∷ k ∷ gs) h;
  colon = contains_colon_append (to_hex g) (join b':' (map to_hex (k ∷ gs)));
  single = rw (doubles-IsSpaced _ (hextets_text-IsSpaced (g ∷ k ∷ gs) h));
  reads =
      rw (split_double-IsSpaced _ (hextets_text-IsSpaced (g ∷ k ∷ gs) h))
        (hextets_text-parse (g ∷ k ∷ gs) h);
}

-- With a run shortened.
unfoldable pub shortened : List ℕ → List ℕ → Text
shortened pre post = hextets_text pre ++ (codes "::" ++ hextets_text post)

filled-room :
    (pre post : List ℕ) (n : ℕ)
    → length pre + length post + n ≡ 8
    → 1 ≤ n
    → filled (some pre) (some post) ≡ some (pre ++ (zeros n ++ post))
filled-room pre post n e some_zero =
    let room : leb 8 (length pre + length post) ≡ false = ground arith in
    let rest : 8 - (length pre + length post) ≡ n = omega arith in rw (room, rest)

pub shortened-Spells :
    (pre post : List ℕ) (n : ℕ)
    → length pre + length post + n ≡ 8
    → 1 ≤ n
    → All IsHextet pre
    → All IsHextet post
    → Spells (shortened pre post) (pre ++ (zeros n ++ post))
unfolding shortened
shortened-Spells pre post n e some_zero h k =
    let left = hextets_text pre in
    let right = hextets_text post in
    let dotless : contains b'.' left ≡ false =
      contains-map IsPlain b'.' left (λ d u. u.1) (hextets_text-plain pre h) in
    record {
      plain =
          All-append IsPlain left _ (hextets_text-plain pre h)
            (colon_plain, (colon_plain, hextets_text-plain post k));
      colon = contains_colon_append left (b':' ∷ right);
      single = rw (
        doubles-append left right (hextets_text-IsSpaced pre h),
        doubles-IsSpaced right (hextets_text-IsSpaced post k),
      );
      reads =
          rw
            (
              split_double-append left right (hextets_text-IsSpaced pre h),
              dotless,
              hextets_text-parse pre h,
              hextets_text-parse post k,
            )
            (filled-room pre post n e some_zero);
    }
