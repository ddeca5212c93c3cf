-- ===== src/Inspect/Scores.antt =====
-- The score of an inspection (packages/core/src/inspect.ts, schema/serialize.ts).
use mathlib.Core.List.{Perm, perm_middle}
use mathlib.Core.List.Perm
use linklint.Common.{
  All, Bool-cases, List, Option, String, [], ap, arith, inl, inr, refl, sym, ◌++◌, ◌∙◌, ◌∷◌, ◌≡◌,
  ◌≤◌,
}
use linklint.Score.{Inverse, Reason, aggregate, fold_reason, fold_reasons, one}
use linklint.Score.Bands.{aggregate_grows}
use linklint.Score.Order.{aggregate-Perm}
use linklint.Score.Suppress.{
  SuppressionRule, aggregate-apply_suppressions, apply_suppressions, is_suppressed, unsuppressed,
}
use linklint.Inspect.Result.{comes_first, insert_reason, sort_reasons}

insert_reason-Perm : (r : Reason) (rs : List Reason) → Perm (insert_reason r rs) (r ∷ rs)
insert_reason-Perm r [] = Perm.refl (r ∷ [])
insert_reason-Perm r (s ∷ ss) = elim (Bool-cases (comes_first r s)) [
  | inl p ↦ rw p (Perm.refl (r ∷ s ∷ ss))
  | inr p ↦ rw p (Perm.trans (Perm.cons s (insert_reason-Perm r ss)) (Perm.swap r s ss))
]

sort_reasons-Perm : (rs : List Reason) → Perm (sort_reasons rs) rs
unfolding sort_reasons
sort_reasons-Perm [] = Perm.refl []
sort_reasons-Perm (r ∷ rs) =
    Perm.trans (insert_reason-Perm r (sort_reasons rs)) (Perm.cons r (sort_reasons-Perm rs))

fold_reasons-append :
    (inv : Inverse) (rs ss : List Reason)
    → fold_reasons inv (rs ++ ss) ≡ fold_reasons (fold_reasons inv rs) ss
unfolding fold_reasons
fold_reasons-append inv [] ss = refl
fold_reasons-append inv (r ∷ rs) ss = fold_reasons-append (fold_reason inv r) rs ss

aggregate_appended :
    (rs ss : List Reason)
    → ((inv : Inverse) → fold_reasons inv ss ≡ inv)
    → aggregate (rs ++ ss) ≡ aggregate rs
unfolding aggregate
aggregate_appended rs ss h = rw (fold_reasons-append one rs ss, h (fold_reasons one rs))

pub aggregate-inserted :
    (rs more ss : List Reason)
    → (aggregate (rs ++ ss)).score ≤ (aggregate (rs ++ (more ++ ss))).score
aggregate-inserted rs [] ss = omega arith
aggregate-inserted rs (m ∷ ms) ss =
    let e =
      aggregate-Perm (rs ++ (m ∷ ms ++ ss)) (m ∷ rs ++ (ms ++ ss)) (perm_middle rs (ms ++ ss)) in
    let ih = aggregate-inserted rs ms ss in
    let grown = (aggregate_grows m (rs ++ (ms ++ ss))).0 in rw e (omega arith)

module _ (rules : List SuppressionRule) (scope : Option String) where
  unsuppressed-append :
      (rs ss : List Reason)
      → unsuppressed rules scope (rs ++ ss)
        ≡ unsuppressed rules scope rs ++ unsuppressed rules scope ss
  unsuppressed-append [] ss = refl
  unsuppressed-append (r ∷ rs) ss = elim (Bool-cases (is_suppressed rules scope r)) [
    | inl p ↦ rw p (unsuppressed-append rs ss)
    | inr p ↦ rw p (ap (λ xs. r ∷ xs) (unsuppressed-append rs ss))
  ]

  fold_reasons-weightless :
      (inv : Inverse) (rs : List Reason)
      → All (λ r. r.weight ≡ 0) rs
      → fold_reasons inv (unsuppressed rules scope rs) ≡ inv
  unfolding fold_reasons fold_reason
  fold_reasons-weightless inv [] h = refl
  fold_reasons-weightless inv (r ∷ rs) h =
      let ih = fold_reasons-weightless inv rs h.1 in
      elim (Bool-cases (is_suppressed rules scope r)) [ inl p ↦ rw p ih | inr p ↦ rw (p, h.0) ih ]

  pub aggregate-weightless :
      (rs ss : List Reason)
      → All (λ r. r.weight ≡ 0) ss
      → aggregate (apply_suppressions (rs ++ ss) rules scope)
        ≡ aggregate (apply_suppressions rs rules scope)
  aggregate-weightless rs ss h =
      aggregate-apply_suppressions (rs ++ ss) rules scope
      ∙ ap aggregate (unsuppressed-append rs ss)
      ∙ aggregate_appended (unsuppressed rules scope rs) (unsuppressed rules scope ss)
          (λ inv. fold_reasons-weightless inv ss h)
      ∙ sym (aggregate-apply_suppressions rs rules scope)

  pub aggregate-apply_suppressions_inserted :
      (rs more ss : List Reason)
      → (aggregate (apply_suppressions (rs ++ ss) rules scope)).score
        ≤ (aggregate (apply_suppressions (rs ++ (more ++ ss)) rules scope)).score
  aggregate-apply_suppressions_inserted rs more ss =
      rw
        (
          aggregate-apply_suppressions (rs ++ ss) rules scope,
          aggregate-apply_suppressions (rs ++ (more ++ ss)) rules scope,
          unsuppressed-append rs ss,
          unsuppressed-append rs (more ++ ss),
          unsuppressed-append more ss,
        )
        (aggregate-inserted (unsuppressed rules scope rs) (unsuppressed rules scope more)
          (unsuppressed rules scope ss))

pub aggregate-sorted : (rs : List Reason) → aggregate (sort_reasons rs) ≡ aggregate rs
aggregate-sorted rs = aggregate-Perm (sort_reasons rs) rs (sort_reasons-Perm rs)
