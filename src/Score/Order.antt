-- ===== src/Score/Order.antt =====
-- The score does not depend on the order of the reasons (scoring/score.ts).
use mathlib.Core.List.{Perm, Permᴰ}
use mathlib.Core.Logic.{∥∥₁_elim}
use linklint.Common.{Bool-cases, List, [], ap, arith, inl, inr, refl, ℕ, ◌*◌, ◌==◌, ◌∙◌, ◌∷◌, ◌≡◌}
use linklint.Score.{
  Inverse, Reason, ScoreResult, Severity, aggregate, fold_reason, fold_reasons, one,
}

swap_factors : (n x y : ℕ) → n * x * y ≡ n * y * x
swap_factors n x y = omega arith

fold_reason_comm :
    (inv : Inverse) (a b : Reason)
    → fold_reason (fold_reason inv a) b ≡ fold_reason (fold_reason inv b) a
unfolding fold_reason
fold_reason_comm inv a b = elim (Bool-cases (a.weight == 0)) [
  | inl p ↦ rw p
  | inr p ↦ elim (Bool-cases (b.weight == 0)) [
    | inl q ↦ rw (p, q)
    | inr q ↦ rw (p, q) (rw swap_factors)
  ]
]

-- A round can be made last instead of first.
pub fold_reasons-fold_reason :
    (inv : Inverse) (r : Reason) (rs : List Reason)
    → fold_reasons (fold_reason inv r) rs ≡ fold_reason (fold_reasons inv rs) r
unfolding fold_reasons
fold_reasons-fold_reason inv r [] = refl
fold_reasons-fold_reason inv r (s ∷ rs) =
    ap (λ x. fold_reasons x rs) (fold_reason_comm inv r s)
    ∙ fold_reasons-fold_reason (fold_reason inv s) r rs

fold_reasons-Permᴰ :
    {rs ss : List Reason}
    → Permᴰ rs ss
    → (inv : Inverse) → fold_reasons inv rs ≡ fold_reasons inv ss
unfolding fold_reasons
fold_reasons-Permᴰ Permᴰ.nil inv = refl
fold_reasons-Permᴰ (Permᴰ.cons {b} {l₁} e p) inv =
    ap (λ r. fold_reasons (fold_reason inv r) l₁) e ∙ fold_reasons-Permᴰ p (fold_reason inv b)
fold_reasons-Permᴰ (Permᴰ.swap {a} {b} {l} e f) inv = rw (← e, ← f, fold_reason_comm)
fold_reasons-Permᴰ (Permᴰ.trans p q) inv = fold_reasons-Permᴰ p inv ∙ fold_reasons-Permᴰ q inv

Severity-set : IsSet Severity
Severity-set = hlevel

ScoreResult-set : IsSet ScoreResult
ScoreResult-set = hlevel

-- Reordering the reasons changes neither the score nor the severity.
pub aggregate-Perm : (rs ss : List Reason) → Perm rs ss → aggregate rs ≡ aggregate ss
unfolding aggregate
aggregate-Perm rs ss p =
    ∥∥₁_elim p (ScoreResult-set (aggregate rs) (aggregate ss)) (λ d. rw (fold_reasons-Permᴰ d one))
