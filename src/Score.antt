-- ===== src/Score.antt =====
-- packages/core/src/scoring/score.ts and the bands of scoring/weights.ts, with the reasons that
-- they read (schema/result.ts). A weight is counted in hundredths, since every registered weight
-- has two decimals, and a score in units of 1e-10, to which `toFixed(10)` rounds; the product is
-- the exact fraction `num / den`, without the floating-point error that the rounding removes.
pub mod Bands
pub mod Order
pub mod Suppress
use linklint.Common.{
  Bool, List, String, [], if◌then◌else◌, leb, ℕ, ◌*◌, ◌+◌, ◌-◌, ◌/◌, ◌==◌, ◌^◌, ◌∷◌,
}

pub data Severity : Type 0 where
  info low medium high critical : Severity

pub data Layer : Type 0 where
  lexical resolution reputation policy : Layer

pub record Reason : Type 0 where
  pub code : String
  pub layer : Layer
  pub detail : String
  pub weight : ℕ
  pub suppressed : Bool

pub record ScoreResult : Type 0 where
  pub score : ℕ
  pub severity : Severity

-- The units of 1e-10 in the score 1.
abbrev pub full_score : ℕ
full_score = 10 ^ 10

unfoldable pub severity_for_score : ℕ → Severity
severity_for_score score =
    if score == 0
    then info
    else if leb score 2_500_000_000
    then low
    else if leb score 5_000_000_000
    then medium
    else if leb score 8_000_000_000
    then high
    else critical

-- The variable `inverse` of the loop, as a fraction.
pub record Inverse : Type 0 where
  pub num : ℕ
  pub den : ℕ

abbrev pub one : Inverse
one = record { num = 1; den = 1 }

-- One round of the loop: a weight of zero is skipped, else `inverse *= 1 - w`.
unfoldable pub fold_reason : Inverse → Reason → Inverse
fold_reason inv r =
    if r.weight == 0 then inv else record { num = inv.num * (100 - r.weight); den = inv.den * 100 }

unfoldable pub fold_reasons : Inverse → List Reason → Inverse
fold_reasons inv [] = inv
fold_reasons inv (r ∷ rs) = fold_reasons (fold_reason inv r) rs

-- `Number((1 - inverse).toFixed(10))`: the nearest unit, the larger one on a tie.
unfoldable pub round_score : Inverse → ℕ
round_score inv = (2 * (full_score * (inv.den - inv.num)) + inv.den) / (2 * inv.den)

unfoldable pub aggregate : List Reason → ScoreResult
aggregate reasons =
    let score = round_score (fold_reasons one reasons) in
    record { score = score; severity = severity_for_score score }
