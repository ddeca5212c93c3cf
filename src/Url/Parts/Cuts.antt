-- ===== src/Url/Parts/Cuts.antt =====
-- The slices of raw-parts.ts around the first or the last place of a unit.
use linklint.Common.{
  ==_iff, Bool-cases, Option, Text, [], ap, arith, contains, false, inl, inr, none, refl, some,
  true, ℕ, ◌++◌, ◌==◌, ◌∷◌, ◌≡◌,
}
use linklint.Url.Parts.{cut_first, cut_first_next, cut_last, cut_last_next}

-- The slices give the text back, and the unit is not in the one that the search went over.
abbrev pub LastCut : ℕ → Text → Option (Text × Text) → Type 0
LastCut c s none = contains c s ≡ false
LastCut c s (some (left, right)) = (s ≡ left ++ (c ∷ right)) × (contains c right ≡ false)

last_next :
    (c d : ℕ) (ds : Text) (m : Option (Text × Text))
    → LastCut c ds m
    → LastCut c (d ∷ ds) (cut_last_next c d ds m)
last_next c d ds (some (left, right)) h = (ap (λ t. d ∷ t) h.0, h.1)
last_next c d ds none h = elim (Bool-cases (d == c)) [
  | inl hit ↦ rw hit (rw ((==_iff d c).0 hit), h)
  | inr other ↦ rw other (rw other h)
]

pub cut_last-LastCut : (c : ℕ) (s : Text) → LastCut c s (cut_last c s)
unfolding cut_last
cut_last-LastCut c [] = refl
cut_last-LastCut c (d ∷ ds) = last_next c d ds (cut_last c ds) (cut_last-LastCut c ds)

abbrev pub FirstCut : ℕ → Text → Option (Text × Text) → Type 0
FirstCut c s none = Unit
FirstCut c s (some (left, right)) = s ≡ left ++ (c ∷ right)

first_next :
    (c d : ℕ) (ds : Text) (m : Option (Text × Text))
    → FirstCut c ds m
    → FirstCut c (d ∷ ds) (cut_first_next d m)
first_next c d ds none h = tt
first_next c d ds (some (left, right)) h = ap (λ t. d ∷ t) h

pub cut_first-FirstCut : (c : ℕ) (s : Text) → FirstCut c s (cut_first c s)
unfolding cut_first
cut_first-FirstCut c [] = tt
cut_first-FirstCut c (d ∷ ds) = elim (Bool-cases (d == c)) [
  | inl hit ↦ rw hit (rw ((==_iff d c).0 hit))
  | inr other ↦ rw other (first_next c d ds (cut_first c ds) (cut_first-FirstCut c ds))
]

pub cut_last-contains : (c : ℕ) (s : Text) → contains c s ≡ false → cut_last c s ≡ none
unfolding cut_last
cut_last-contains c [] h = refl
cut_last-contains c (d ∷ ds) h =
    let parts : ((d == c) ≡ false) × (contains c ds ≡ false) = ground arith in
    rw (cut_last-contains c ds parts.1, parts.0)

pub cut_last-append :
    (c : ℕ) (left right : Text)
    → contains c right ≡ false
    → cut_last c (left ++ (c ∷ right)) ≡ some (left, right)
unfolding cut_last
cut_last-append c [] right h =
    let hit : (c == c) ≡ true = ground arith in rw (cut_last-contains c right h, hit)
cut_last-append c (d ∷ ds) right h = rw (cut_last-append c ds right h)
