-- ===== src/Ipv6/Doubles.antt =====
-- The first `::` of a text that is put together.
use mathlib.Core.Path.{subst}
use linklint.Common.{
  All, List, Text, [], codes, false, join, none, refl, some, suc, ℕ, ◌&&◌, ◌++◌, ◌==◌, ◌∷◌, ◌≡◌,
}
use linklint.Ipv6.{doubles, split_double}

-- No two colons side by side, and none at the end.
abbrev pub IsSpaced : Text → Type 0
IsSpaced [] = Unit
IsSpaced (a ∷ []) = (a == b':') ≡ false
IsSpaced (a ∷ b ∷ rest) = ((a == b':' && b == b':') ≡ false) × IsSpaced (b ∷ rest)

pub split_double-IsSpaced : (s : Text) → IsSpaced s → split_double s ≡ none
unfolding split_double
split_double-IsSpaced [] h = refl
split_double-IsSpaced (a ∷ []) h = refl
split_double-IsSpaced (a ∷ b ∷ rest) h = rw (h.0, split_double-IsSpaced (b ∷ rest) h.1)

pub doubles-IsSpaced : (s : Text) → IsSpaced s → doubles s ≡ 0
unfolding doubles
doubles-IsSpaced [] h = refl
doubles-IsSpaced (a ∷ []) h = refl
doubles-IsSpaced (a ∷ b ∷ rest) h = rw (h.0, doubles-IsSpaced (b ∷ rest) h.1)

pub split_double-append :
    (s rest : Text) → IsSpaced s → split_double (s ++ (codes "::" ++ rest)) ≡ some (s, rest)
unfolding split_double
split_double-append [] rest h = refl
split_double-append (a ∷ []) rest h = rw h
split_double-append (a ∷ b ∷ more) rest h = rw (h.0, split_double-append (b ∷ more) rest h.1)

pub doubles-append :
    (s rest : Text) → IsSpaced s → doubles (s ++ (codes "::" ++ rest)) ≡ suc (doubles rest)
unfolding doubles
doubles-append [] rest h = refl
doubles-append (a ∷ []) rest h = rw h
doubles-append (a ∷ b ∷ more) rest h = rw (h.0, doubles-append (b ∷ more) rest h.1)

-- Not empty, and with no colon.
abbrev pub IsPiece : Text → Type 0
IsPiece [] = ⊥
IsPiece (a ∷ rest) = ((a == b':') ≡ false) × All (λ c. (c == b':') ≡ false) rest

IsPiece-IsSpaced : (s : Text) → IsPiece s → IsSpaced s
IsPiece-IsSpaced [] h = tt
IsPiece-IsSpaced (a ∷ []) h = h.0
IsPiece-IsSpaced (a ∷ b ∷ rest) h = (rw h.0, IsPiece-IsSpaced (b ∷ rest) h.1)

IsSpaced-append :
    (s : Text) (b : ℕ) (rest : Text)
    → IsPiece s
    → (b == b':') ≡ false
    → IsSpaced (b ∷ rest)
    → IsSpaced (s ++ (b':' ∷ (b ∷ rest)))
IsSpaced-append [] b rest h k spaced = absurd h
IsSpaced-append (a ∷ []) b rest h k spaced = (rw h.0, (k, spaced))
IsSpaced-append (a ∷ c ∷ more) b rest h k spaced =
    (rw h.0, IsSpaced-append (c ∷ more) b rest h.1 k spaced)

-- What a join starts with.
join_start :
    (p : Text) (ps : List Text)
    → IsPiece p
    → (b : ℕ) × (rest : Text) × (join b':' (p ∷ ps) ≡ b ∷ rest) × ((b == b':') ≡ false)
join_start [] ps h = absurd h
join_start (a ∷ more) [] h = (a, more, refl, h.0)
join_start (a ∷ more) (q ∷ qs) h = (a, more ++ (b':' ∷ join b':' (q ∷ qs)), refl, h.0)

pub IsSpaced-join : (ps : List Text) → All IsPiece ps → IsSpaced (join b':' ps)
IsSpaced-join [] h = tt
IsSpaced-join (p ∷ []) h = IsPiece-IsSpaced p h.0
IsSpaced-join (p ∷ q ∷ qs) h =
    let (b, rest, e, k) = join_start q qs h.1.0 in
    rw e (IsSpaced-append p b rest h.0 k (subst IsSpaced e (IsSpaced-join (q ∷ qs) h.1)))
