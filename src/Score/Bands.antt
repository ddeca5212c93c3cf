-- ===== src/Score/Bands.antt =====
-- What the score is and how the severity bands follow it (scoring/score.ts, scoring/weights.ts).
use native.Mathlib.Nat.{mul-le-mul, mul-le-mul_left, mul-div-le}
use linklint.Common.{
  All, Bool-cases, List, [], any, arith, false, inl, inr, refl, true, ℕ, ◌*◌, ◌+◌, ◌-◌, ◌/◌, ◌<◌,
  ◌==◌, ◌↔◌, ◌∷◌, ◌≡◌, ◌≤◌, ◌⊎◌,
}
use linklint.Score.Order.{fold_reasons-fold_reason}
use linklint.Score.{
  Inverse, Reason, Severity, aggregate, critical, fold_reason, fold_reasons, full_score, high, info,
  low, medium, one, round_score, severity_for_score,
}

-- The fraction is proper.
pub record IsProper (inv : Inverse) : Type 0 where
  pub positive : 0 < inv.den
  pub below : inv.num ≤ inv.den

scale_le : (n d w : ℕ) → n ≤ d → n * (100 - w) ≤ d * 100
scale_le n d w h = mul-le-mul h (omega arith)

pub fold_reason-IsProper :
    (inv : Inverse) (r : Reason) → IsProper inv → IsProper (fold_reason inv r)
unfolding fold_reason
fold_reason-IsProper inv r h = ground (arith, scale_le inv.num inv.den r.weight)

pub fold_reasons-IsProper :
    (inv : Inverse) (rs : List Reason) → IsProper inv → IsProper (fold_reasons inv rs)
unfolding fold_reasons
fold_reasons-IsProper inv [] h = h
fold_reasons-IsProper inv (r ∷ rs) h =
    fold_reasons-IsProper (fold_reason inv r) rs (fold_reason-IsProper inv r h)

div_le : (x d m : ℕ) → x < d * (m + 1) → x / d ≤ m
div_le x d m h = grind arith

le_div : (x d m : ℕ) → 0 < d → d * m ≤ x → m ≤ x / d
le_div x d m p h = grind arith

round_score-le : (inv : Inverse) → IsProper inv → round_score inv ≤ full_score
unfolding round_score
round_score-le inv h = div_le _ _ _ (omega arith)

-- One more reason never lowers the rounded score.
pub round_score_grows :
    (inv : Inverse) (r : Reason) → IsProper inv → round_score inv ≤ round_score (fold_reason inv r)
unfolding round_score fold_reason
round_score_grows inv r h = elim (Bool-cases (r.weight == 0)) [
  | inl p ↦ rw p (omega arith)
  | inr p ↦ rw p (
      le_div _ _ _ (omega arith) (
        omega (
          arith,
          mul-div-le (2 * (full_score * (inv.den - inv.num)) + inv.den) (2 * inv.den),
          scale_le inv.num inv.den r.weight h.below,
          mul-le-mul_left {m = 100 - r.weight} {n = 100} inv.num (omega arith),
        )))
]

pub one-IsProper : IsProper one
one-IsProper = omega arith

-- The order of the bands.
abbrev pub rank : Severity → ℕ
rank info = 0
rank low = 1
rank medium = 2
rank high = 3
rank critical = 4

pub severity_mono : (a b : ℕ) → a ≤ b → rank (severity_for_score a) ≤ rank (severity_for_score b)
unfolding severity_for_score
severity_mono a b h = ground arith

-- One more reason lowers neither the score nor the severity, and the score stays at most 1.
pub aggregate_grows :
    (r : Reason) (rs : List Reason)
    → ((aggregate rs).score ≤ (aggregate (r ∷ rs)).score)
      × (rank (aggregate rs).severity ≤ rank (aggregate (r ∷ rs)).severity)
      × ((aggregate (r ∷ rs)).score ≤ full_score)
unfolding aggregate
aggregate_grows r rs =
    let proper = fold_reasons-IsProper one rs one-IsProper in
    let grows : round_score (fold_reasons one rs) ≤ round_score (fold_reasons one (r ∷ rs)) =
      unfold fold_reasons in
      rw (fold_reasons-fold_reason one r rs) (round_score_grows (fold_reasons one rs) r proper) in
    (
      grows,
      severity_mono _ _ grows,
      round_score-le _ (fold_reasons-IsProper one (r ∷ rs) one-IsProper),
    )

-- What a reason of positive weight leaves.
abbrev IsReduced : Inverse → Type 0
IsReduced inv = (0 < inv.den) × (inv.num * 100 ≤ inv.den * 99)

fold_reason-IsReduced : (inv : Inverse) (r : Reason) → IsReduced inv → IsReduced (fold_reason inv r)
unfolding fold_reason
fold_reason-IsReduced inv r h =
    ground (arith, mul-le-mul_left {m = 100 - r.weight} {n = 100} inv.num)

fold_reasons-IsReduced :
    (inv : Inverse) (rs : List Reason) → IsReduced inv → IsReduced (fold_reasons inv rs)
unfolding fold_reasons
fold_reasons-IsReduced inv [] h = h
fold_reasons-IsReduced inv (r ∷ rs) h =
    fold_reasons-IsReduced (fold_reason inv r) rs (fold_reason-IsReduced inv r h)

round_score_positive : (inv : Inverse) → IsReduced inv → 0 < round_score inv
unfolding round_score
round_score_positive inv h = le_div _ _ 1 (omega arith) (omega arith)

fold_reason-IsReduced_first : (r : Reason) → (r.weight == 0) ≡ false → IsReduced (fold_reason one r)
unfolding fold_reason
fold_reason-IsReduced_first r p = ground arith

fold_reasons_cases :
    (rs : List Reason)
    → (All (λ r. r.weight ≡ 0) rs × (fold_reasons one rs ≡ one))
      ⊎ ((¬ All (λ r. r.weight ≡ 0) rs) × IsReduced (fold_reasons one rs))
unfolding fold_reasons fold_reason
fold_reasons_cases [] = inl (tt, refl)
fold_reasons_cases (r ∷ rs) = elim (Bool-cases (r.weight == 0)) [
  | inl p ↦ rw p (ground (arith, fold_reasons_cases rs))
  | inr p ↦ inr (ground arith, fold_reasons-IsReduced _ rs (fold_reason-IsReduced_first r p))
]

-- The severity is `info` exactly when every reason has weight 0.
pub aggregate-info_iff :
    (rs : List Reason) → ((aggregate rs).severity ≡ info) ↔ All (λ r. r.weight ≡ 0) rs
unfolding aggregate
aggregate-info_iff rs = elim (fold_reasons_cases rs) [
  | inl (zeros, e) ↦ (λ _. zeros, λ _. rw e (unfold round_score severity_for_score in refl))
  | inr (some_weight, h) ↦ (
    λ e. absurd (info-ne-positive _ (round_score_positive _ h) e),
    λ zeros. absurd (some_weight zeros),
  )
]
  where
    info-ne-positive : (n : ℕ) → 0 < n → ¬ (severity_for_score n ≡ info)
    info-ne-positive n h = unfold severity_for_score in ground arith

fold_reasons-num_zero :
    (inv : Inverse) (rs : List Reason) → inv.num ≡ 0 → (fold_reasons inv rs).num ≡ 0
unfolding fold_reasons fold_reason
fold_reasons-num_zero inv [] h = h
fold_reasons-num_zero inv (r ∷ rs) h = fold_reasons-num_zero (fold_reason inv r) rs (ground arith)

fold_reasons-any_full :
    (inv : Inverse) (rs : List Reason)
    → any (λ r. r.weight == 100) rs ≡ true
    → (fold_reasons inv rs).num ≡ 0
unfolding fold_reasons
fold_reasons-any_full inv [] h = cc
fold_reasons-any_full inv (r ∷ rs) h = elim (Bool-cases (r.weight == 100)) [
  | inl p ↦ fold_reasons-num_zero (fold_reason inv r) rs (unfold fold_reason in ground arith)
  | inr p ↦ fold_reasons-any_full (fold_reason inv r) rs (ground arith)
]

round_score_full : (inv : Inverse) → 0 < inv.den → inv.num ≡ 0 → round_score inv ≡ full_score
unfolding round_score
round_score_full inv d h =
    let above : full_score ≤ round_score inv = le_div _ _ full_score (omega arith) (omega arith) in
    let below : round_score inv ≤ full_score = div_le _ _ full_score (omega arith) in omega arith

-- A reason of weight 1 anywhere gives the score 1 and the severity `critical`.
pub aggregate-certain :
    (rs : List Reason)
    → any (λ r. r.weight == 100) rs ≡ true
    → aggregate rs ≡ record { score = full_score; severity = critical }
unfolding aggregate
aggregate-certain rs h =
    rw
      (round_score_full (fold_reasons one rs) (fold_reasons-IsProper one rs one-IsProper).positive
        (fold_reasons-any_full one rs h))
      (unfold severity_for_score in refl)
