-- ===== src/Enrich/Plan/Rounds/Settles.antt =====
-- What a round keeps pending and what it settles (packages/core/src/inspect-async.ts).
use linklint.Common.{
  ==_iff, All, Bool, Bool-cases, List, [], arith, false, inl, inr, is_none, length, not, true, ℕ,
  ◌<◌, ◌==◌, ◌∷◌, ◌≡◌, ◌≤◌,
}
use linklint.Enrich.{EnricherRun}
use linklint.Enrich.Plan.{PlannedEnricher, Runs, has_index, keep, set_run}
use linklint.Enrich.Plan.Rounds.{settle}

pub All-weaken :
    {A : Type 0} {P Q : A → Type 0} (xs : List A) → ((x : A) → P x → Q x) → All P xs → All Q xs
All-weaken [] f h = tt
All-weaken (x ∷ xs) f h = (f x h.0, All-weaken xs f h.1)

pub All-both :
    {A : Type 0} (P Q : A → Type 0) (xs : List A) → All P xs → All Q xs → All (λ x. P x × Q x) xs
All-both P Q [] h k = tt
All-both P Q (x ∷ xs) h k = ((h.0, k.0), All-both P Q xs h.1 k.1)

pub keep-All :
    (P : PlannedEnricher → Type 0) (p : PlannedEnricher → Bool) (ss : List PlannedEnricher)
    → All P ss
    → All P (keep p ss)
keep-All P p [] h = tt
keep-All P p (s ∷ ss) h = elim (Bool-cases (p s)) [
  | inl kept ↦ rw kept (h.0, keep-All P p ss h.1)
  | inr dropped ↦ rw dropped (keep-All P p ss h.1)
]

-- Every step of a list has its index in the list.
pub has_index-All : (ss : List PlannedEnricher) → All (λ s. has_index s.index ss ≡ true) ss
has_index-All [] = tt
has_index-All (s ∷ ss) = (ground arith, All-weaken ss (λ t h. ground (arith, h)) (has_index-All ss))

pub keep-le :
    (p : PlannedEnricher → Bool) (ss : List PlannedEnricher) → length (keep p ss) ≤ length ss
keep-le p [] = omega arith
keep-le p (s ∷ ss) = ground (arith, keep-le p ss)

abbrev pub outside : List PlannedEnricher → PlannedEnricher → Bool
outside members s = not (has_index s.index members)

pub keep-outside_lt :
    (i : ℕ) (members ss : List PlannedEnricher)
    → has_index i ss ≡ true
    → has_index i members ≡ true
    → length (keep (outside members) ss) < length ss
keep-outside_lt i members [] h m = absurd (ground arith)
keep-outside_lt i members (s ∷ ss) h m = elim (Bool-cases (s.index == i)) [
  | inl same ↦
      let at : has_index s.index members ≡ true = rw ((==_iff s.index i).0 same) m in
      rw at (omega (arith, keep-le (outside members) ss))
  | inr other ↦
      let ih = keep-outside_lt i members ss (rw other at h) m in
      elim (Bool-cases (has_index s.index members)) [
        | inl in' ↦ rw in' (omega arith)
        | inr out ↦ rw out (omega arith)
      ]
]

pub keep-outside_has :
    (i : ℕ) (members ss : List PlannedEnricher)
    → has_index i ss ≡ true
    → has_index i members ≡ false
    → has_index i (keep (outside members) ss) ≡ true
keep-outside_has i members [] h m = absurd (ground arith)
keep-outside_has i members (s ∷ ss) h m = elim (Bool-cases (s.index == i)) [
  | inl same ↦
      let at : has_index s.index members ≡ false = rw ((==_iff s.index i).0 same) m in
      rw at (rw same)
  | inr other ↦
      let ih = keep-outside_has i members ss (rw other at h) m in
      elim (Bool-cases (has_index s.index members)) [
        | inl in' ↦ rw in' ih
        | inr out ↦ rw (out, other) ih
      ]
]

pub settle-keeps :
    (run : PlannedEnricher → EnricherRun) (ss : List PlannedEnricher) (runs : Runs) (i : ℕ)
    → is_none (runs i) ≡ false
    → is_none (settle run ss runs i) ≡ false
settle-keeps run [] runs i h = h
settle-keeps run (s ∷ ss) runs i h =
    settle-keeps run ss (set_run s.index (run s) runs) i (ground arith)

pub settle-settles :
    (run : PlannedEnricher → EnricherRun) (ss : List PlannedEnricher) (runs : Runs) (i : ℕ)
    → has_index i ss ≡ true
    → is_none (settle run ss runs i) ≡ false
settle-settles run [] runs i h = absurd (ground arith)
settle-settles run (s ∷ ss) runs i h = elim (Bool-cases (s.index == i)) [
  | inl same ↦ settle-keeps run ss (set_run s.index (run s) runs) i (rw same)
  | inr other ↦ settle-settles run ss (set_run s.index (run s) runs) i (rw other at h)
]
