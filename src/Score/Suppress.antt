-- ===== src/Score/Suppress.antt =====
-- packages/core/src/scoring/suppress.ts: the caller's suppression rules. The registrable domain of
-- the input is handed over in canonical form, as `hostContext` is in the source.
use linklint.Common.{
  Bool, Bool-cases, List, Option, String, [], any, ap, arith, false, if◌then◌else◌, inl, inr, map,
  none, refl, some, str_eq, true, ◌&&◌, ◌∷◌, ◌≡◌, ◌≤◌,
}
use linklint.Score.{Inverse, Reason, aggregate, fold_reason, fold_reasons, one, round_score}
use linklint.Score.Bands.{
  IsProper, fold_reason-IsProper, fold_reasons-IsProper, one-IsProper, rank, round_score_grows,
  severity_mono,
}
use linklint.Score.Order.{fold_reasons-fold_reason}

pub record SuppressionRule : Type 0 where
  pub code : String
  pub host : Option String

-- `rule.host === null || rule.host === hostContext`
abbrev host_matches : Option String → Option String → Bool
host_matches none context = true
host_matches (some host) none = false
host_matches (some host) (some context) = str_eq host context

unfoldable pub is_suppressed : List SuppressionRule → Option String → Reason → Bool
is_suppressed rules context r =
    any (λ rule. str_eq rule.code r.code && host_matches rule.host context) rules

-- The arrow function of the `map`.
unfoldable pub suppress_reason : List SuppressionRule → Option String → Reason → Reason
suppress_reason rules context r =
    if is_suppressed rules context r then record r { weight = 0; suppressed = true } else r

unfoldable pub apply_suppressions : List Reason → List SuppressionRule → Option String → List Reason
apply_suppressions reasons [] context = reasons
apply_suppressions reasons (rule ∷ rules) context =
    map (suppress_reason (rule ∷ rules) context) reasons

-- What scoring would see if the matched reasons were not there.
abbrev pub unsuppressed : List SuppressionRule → Option String → List Reason → List Reason
unsuppressed rules context [] = []
unsuppressed rules context (r ∷ rs) =
    if is_suppressed rules context r
    then unsuppressed rules context rs
    else r ∷ unsuppressed rules context rs

module _ (rules : List SuppressionRule) (context : Option String) where
  fold_reasons-map :
      (inv : Inverse) (rs : List Reason)
      → fold_reasons inv (map (suppress_reason rules context) rs)
        ≡ fold_reasons inv (unsuppressed rules context rs)
  unfolding fold_reasons suppress_reason fold_reason
  fold_reasons-map inv [] = refl
  fold_reasons-map inv (r ∷ rs) = elim (Bool-cases (is_suppressed rules context r)) [
    | inl p ↦ rw p (fold_reasons-map inv rs)
    | inr p ↦ rw p (fold_reasons-map (fold_reason inv r) rs)
  ]

  unsuppressed-le :
      (inv : Inverse) (rs : List Reason)
      → IsProper inv
      → round_score (fold_reasons inv (unsuppressed rules context rs))
        ≤ round_score (fold_reasons inv rs)
  unfolding fold_reasons
  unsuppressed-le inv [] h = omega arith
  unsuppressed-le inv (r ∷ rs) h = elim (Bool-cases (is_suppressed rules context r)) [
    | inl p ↦
        rw (p, fold_reasons-fold_reason inv r rs)
          (omega (
            arith,
            unsuppressed-le inv rs h,
            round_score_grows (fold_reasons inv rs) r (fold_reasons-IsProper inv rs h),
          ))
    | inr p ↦ rw p (unsuppressed-le (fold_reason inv r) rs (fold_reason-IsProper inv r h))
  ]

unsuppressed-nil : (context : Option String) (rs : List Reason) → unsuppressed [] context rs ≡ rs
unfolding is_suppressed
unsuppressed-nil context [] = refl
unsuppressed-nil context (r ∷ rs) = ap (λ xs. r ∷ xs) (unsuppressed-nil context rs)

-- The result scores exactly as if the matched reasons were not there.
pub aggregate-apply_suppressions :
    (reasons : List Reason) (rules : List SuppressionRule) (context : Option String)
    → aggregate (apply_suppressions reasons rules context)
      ≡ aggregate (unsuppressed rules context reasons)
unfolding apply_suppressions aggregate
aggregate-apply_suppressions reasons [] context = rw (unsuppressed-nil context reasons)
aggregate-apply_suppressions reasons (rule ∷ rules) context =
    rw (fold_reasons-map (rule ∷ rules) context one reasons)

-- Suppression never raises the score or the severity.
pub apply_suppressions-le :
    (reasons : List Reason) (rules : List SuppressionRule) (context : Option String)
    → ((aggregate (apply_suppressions reasons rules context)).score ≤ (aggregate reasons).score)
      × (rank (aggregate (apply_suppressions reasons rules context)).severity
          ≤ rank (aggregate reasons).severity)
apply_suppressions-le reasons rules context =
    rw (aggregate-apply_suppressions reasons rules context)
      (unfold aggregate in (le, severity_mono _ _ le))
  where
    le :
        round_score (fold_reasons one (unsuppressed rules context reasons))
        ≤ round_score (fold_reasons one reasons)
    le = unsuppressed-le rules context one reasons one-IsProper

map-suppress_reason :
    (rules : List SuppressionRule) (context : Option String) (rs : List Reason)
    → (map (λ r. r.code) (map (suppress_reason rules context) rs) ≡ map (λ r. r.code) rs)
      × (map (λ r. r.detail) (map (suppress_reason rules context) rs) ≡ map (λ r. r.detail) rs)
unfolding suppress_reason
map-suppress_reason rules context [] = (refl, refl)
map-suppress_reason rules context (r ∷ rs) = ground (arith, map-suppress_reason rules context rs)

-- No reason is dropped, moved or reworded: the codes and the details are those of the input.
pub apply_suppressions-keeps :
    (reasons : List Reason) (rules : List SuppressionRule) (context : Option String)
    → (map (λ r. r.code) (apply_suppressions reasons rules context) ≡ map (λ r. r.code) reasons)
      × (map (λ r. r.detail) (apply_suppressions reasons rules context)
          ≡ map (λ r. r.detail) reasons)
unfolding apply_suppressions
apply_suppressions-keeps reasons [] context = (refl, refl)
apply_suppressions-keeps reasons (rule ∷ rules) context =
    map-suppress_reason (rule ∷ rules) context reasons
