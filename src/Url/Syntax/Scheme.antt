-- ===== src/Url/Syntax/Scheme.antt =====
-- The scheme prefix of packages/core/src/parse/syntax.ts, read and written.
use linklint.Common.{
  All, Bool-cases, Option, Text, [], ap, arith, false, inl, inr, none, refl, some, true, ℕ, ◌++◌,
  ◌==◌, ◌∷◌, ◌≡◌,
}
use linklint.Url.Syntax.{is_ascii_letter, is_scheme_unit, scheme_match, scheme_tail}

abbrev IsName : Text → Type 0
IsName name = All (λ c. is_scheme_unit c ≡ true) name

-- A match splits the text at a colon.
pub data Match (s : Text) (m : Option (Text × Text)) : Type 0 where
  none_here : m ≡ none → Match s m
  found : (name rest : Text) → m ≡ some (name, rest) → s ≡ name ++ (b':' ∷ rest) → Match s m

scheme_tail-Match : (s : Text) → Match s (scheme_tail s)
unfolding scheme_tail
scheme_tail-Match [] = none_here refl
scheme_tail-Match (c ∷ cs) = elim (Bool-cases (c == b':')) [
  | inl colon ↦ found [] cs (rw colon) (ground arith)
  | inr other ↦ elim (Bool-cases (is_scheme_unit c)) [
    | inr bad ↦ none_here (rw (other, bad))
    | inl unit ↦ elim (scheme_tail-Match cs) [
      | none_here e ↦ none_here (rw (other, unit, e))
      | found name rest e whole ↦
          found (c ∷ name) rest (rw (other, unit, e)) (ap (λ t. c ∷ t) whole)
    ]
  ]
]

pub scheme_match-Match : (s : Text) → Match s (scheme_match s)
unfolding scheme_match
scheme_match-Match [] = none_here refl
scheme_match-Match (c ∷ cs) = elim (Bool-cases (is_ascii_letter c)) [
  | inr bad ↦ none_here (rw bad)
  | inl letter ↦ elim (scheme_tail-Match cs) [
    | none_here e ↦ none_here (rw (letter, e))
    | found name rest e whole ↦ found (c ∷ name) rest (rw (letter, e)) (ap (λ t. c ∷ t) whole)
  ]
]

scheme_tail_written :
    (name rest : Text) → IsName name → scheme_tail (name ++ (b':' ∷ rest)) ≡ some (name, rest)
unfolding scheme_tail
scheme_tail_written [] rest h = refl
scheme_tail_written (c ∷ cs) rest h =
    let other : (c == b':') ≡ false = ground arith in
    rw (other, h.0, scheme_tail_written cs rest h.1)

pub scheme_match_written :
    (c : ℕ) (cs rest : Text)
    → is_ascii_letter c ≡ true
    → All (λ d. is_scheme_unit d ≡ true) cs
    → scheme_match (c ∷ (cs ++ (b':' ∷ rest))) ≡ some (c ∷ cs, rest)
unfolding scheme_match
scheme_match_written c cs rest letter h = rw (letter, scheme_tail_written cs rest h)
