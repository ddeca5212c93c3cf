-- ===== src/Url/Syntax/Cuts.antt =====
-- Texts cut at the first unit that passes a test, for the positions of syntax.ts.
use linklint.Common.{
  All, Bool, Bool-cases, Text, [], ap, drop, false, inl, inr, length, none, refl, some, suc, take,
  true, ℕ, ◌++◌, ◌∷◌, ◌≡◌,
}
use linklint.Url.Syntax.{index_where}

-- No unit of the text passes the test.
abbrev pub Lacks : (ℕ → Bool) → Text → Type 0
Lacks p s = All (λ c. p c ≡ false) s

-- The text is cut at the first unit that passes the test, or has none.
pub data Cut (p : ℕ → Bool) (s : Text) : Type 0 where
  absent : index_where p s ≡ none → Lacks p s → Cut p s
  present :
      (i c : ℕ) (rest : Text)
      → index_where p s ≡ some i
      → Lacks p (take i s)
      → p c ≡ true
      → drop i s ≡ c ∷ rest
      → drop (suc i) s ≡ rest
      → s ≡ take i s ++ (c ∷ rest)
      → Cut p s

next-Cut : (p : ℕ → Bool) (c : ℕ) (cs : Text) → p c ≡ false → Cut p cs → Cut p (c ∷ cs)
unfolding index_where
next-Cut p c cs other (absent e lacks) = absent (rw (other, e)) (other, lacks)
next-Cut p c cs other (present i d rest e lacks hit here after whole) =
    present (suc i) d rest (rw (other, e)) (other, lacks) hit here after (ap (λ t. c ∷ t) whole)

pub index_where-Cut : (p : ℕ → Bool) (s : Text) → Cut p s
unfolding index_where
index_where-Cut p [] = absent refl tt
index_where-Cut p (c ∷ cs) = elim (Bool-cases (p c)) [
  | inl hit ↦ present 0 c cs (rw hit) tt hit refl refl refl
  | inr other ↦ next-Cut p c cs other (index_where-Cut p cs)
]

-- The first hit of a text that is put together.
pub index_where-append :
    (p : ℕ → Bool) (s : Text) (c : ℕ) (rest : Text)
    → Lacks p s
    → p c ≡ true
    → index_where p (s ++ (c ∷ rest)) ≡ some (length s)
unfolding index_where
index_where-append p [] c rest lacks hit = rw hit
index_where-append p (d ∷ ds) c rest lacks hit =
    rw (lacks.0, index_where-append p ds c rest lacks.1 hit)

pub index_where-Lacks : (p : ℕ → Bool) (s : Text) → Lacks p s → index_where p s ≡ none
unfolding index_where
index_where-Lacks p [] lacks = refl
index_where-Lacks p (d ∷ ds) lacks = rw (lacks.0, index_where-Lacks p ds lacks.1)

pub take-length-append : (s rest : Text) → take (length s) (s ++ rest) ≡ s
take-length-append [] rest = refl
take-length-append (c ∷ cs) rest = ap (λ t. c ∷ t) (take-length-append cs rest)

pub drop-length-append : (s rest : Text) → drop (length s) (s ++ rest) ≡ rest
drop-length-append [] rest = refl
drop-length-append (c ∷ cs) rest = drop-length-append cs rest

pub drop_past-append :
    (s : Text) (c : ℕ) (rest : Text) → drop (suc (length s)) (s ++ (c ∷ rest)) ≡ rest
drop_past-append [] c rest = refl
drop_past-append (d ∷ ds) c rest = drop_past-append ds c rest
