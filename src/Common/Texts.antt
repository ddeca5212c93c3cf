-- ===== src/Common/Texts.antt =====
-- A JavaScript string as the list of its UTF-16 code units, for the code that walks over one.
use Prim.Native.Nat.{ℕ, ◌+◌}
use Prim.Native.Char.{code}
use Prim.Native.String.{String}
use mathlib.Core.Path.{◌≡◌, refl, ap, ◌∙◌}
use mathlib.Core.Logic.{◌↔◌}
use mathlib.Core.Option.{Option, none, some}
use mathlib.Core.Bool.{Bool, true, false, ◌&&◌, ◌||◌}
use mathlib.Core.List.{List, [], ◌∷◌, ◌++◌, reverse}
use native.Mathlib.Omega.{arith}
use linklint.Common.Quantifiers.{All}
use linklint.Common.Tests.{if◌then◌else◌, leb, ◌==◌}

abbrev pub Text : Type 0
Text = List ℕ

-- The code units of a literal; every literal here is ASCII.
abbrev pub codes : String → Text
codes String.[] = []
codes (String.◌∷◌ c s) = code c ∷ codes s

-- `a === b`
abbrev pub text_eq : Text → Text → Bool
text_eq [] [] = true
text_eq (a ∷ as') (b ∷ bs) = (a == b) && text_eq as' bs
text_eq _ _ = false

pub text_eq_iff : (a b : Text) → (text_eq a b ≡ true) ↔ (a ≡ b)
text_eq_iff [] [] = ground arith
text_eq_iff [] (b ∷ bs) = ground arith
text_eq_iff (a ∷ as') [] = ground arith
text_eq_iff (a ∷ as') (b ∷ bs) = ground (arith, text_eq_iff as' bs)

-- What `trim` removes: ECMA-262 WhiteSpace and LineTerminator.
abbrev pub is_space : ℕ → Bool
is_space c =
    (leb 9 c && leb c 13)
    || c == 32
    || c == 0xa0
    || c == 0x1680
    || (leb 0x2000 c && leb c 0x200a)
    || c == 0x2028
    || c == 0x2029
    || c == 0x202f
    || c == 0x205f
    || c == 0x3000
    || c == 0xfeff

-- The prefix that fails the test is dropped.
abbrev pub drop_while : (ℕ → Bool) → Text → Text
drop_while p [] = []
drop_while p (c ∷ cs) = let rest = drop_while p cs in if p c then rest else c ∷ cs

abbrev pub trim : Text → Text
trim s = reverse (drop_while is_space (reverse (drop_while is_space s)))

-- `startsWith` and `includes`.
abbrev pub starts_with : Text → Text → Bool
starts_with [] t = true
starts_with (c ∷ cs) [] = false
starts_with (c ∷ cs) (d ∷ ds) = (c == d) && starts_with cs ds

abbrev pub includes : Text → Text → Bool
includes part [] = starts_with part []
includes part (c ∷ cs) = starts_with part (c ∷ cs) || includes part cs

-- `includes` of one code unit.
abbrev pub contains : ℕ → Text → Bool
contains c [] = false
contains c (d ∷ ds) = (d == c) || contains c ds

-- `at(-1)`, `endsWith` of one code unit, and `slice(0, -1)`.
abbrev pub last_unit : Text → Option ℕ
last_unit [] = none
last_unit (c ∷ []) = some c
last_unit (c ∷ d ∷ ds) = last_unit (d ∷ ds)

abbrev pub ends_in : ℕ → Text → Bool
ends_in c s = elim (last_unit s) [ none ↦ false | some d ↦ d == c ]

abbrev pub drop_last : Text → Text
drop_last [] = []
drop_last (c ∷ []) = []
drop_last (c ∷ d ∷ ds) = c ∷ drop_last (d ∷ ds)

abbrev pub is_digit : ℕ → Bool
is_digit c = leb b'0' c && leb c b'9'

-- `split` at one code unit: never empty.
abbrev pub add_first : ℕ → List Text → List Text
add_first d [] = (d ∷ []) ∷ []
add_first d (p ∷ ps) = (d ∷ p) ∷ ps

unfoldable pub split : ℕ → Text → List Text
split c [] = [] ∷ []
split c (d ∷ ds) = let rest = split c ds in if d == c then [] ∷ rest else add_first d rest

-- `join` with one code unit.
abbrev pub join : ℕ → List Text → Text
join c [] = []
join c (p ∷ []) = p
join c (p ∷ q ∷ qs) = p ++ (c ∷ join c (q ∷ qs))

pub split-append :
    (c : ℕ) (p rest : Text) → contains c p ≡ false → split c (p ++ (c ∷ rest)) ≡ p ∷ split c rest
unfolding split
split-append c [] rest h = ground arith
split-append c (d ∷ ds) rest h = ground (arith, split-append c ds rest)

pub split-contains : (c : ℕ) (p : Text) → contains c p ≡ false → split c p ≡ p ∷ []
unfolding split
split-contains c [] h = refl
split-contains c (d ∷ ds) h = ground (arith, split-contains c ds)

-- Pieces without the separator come back from their join.
pub split-join :
    (c : ℕ) (p : Text) (ps : List Text)
    → All (λ q. contains c q ≡ false) (p ∷ ps)
    → split c (join c (p ∷ ps)) ≡ p ∷ ps
split-join c p [] h = split-contains c p h.0
split-join c p (q ∷ qs) h =
    split-append c p (join c (q ∷ qs)) h.0 ∙ ap (λ xs. p ∷ xs) (split-join c q qs h.1)

-- `toLowerCase` of ASCII text.
abbrev pub lower_unit : ℕ → ℕ
lower_unit c = if leb b'A' c && leb c b'Z' then c + 32 else c

abbrev pub lower_ascii : Text → Text
lower_ascii [] = []
lower_ascii (c ∷ cs) = lower_unit c ∷ lower_ascii cs
