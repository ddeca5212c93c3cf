-- ===== src/Tests/Score.antt =====
-- Runs of packages/core/src/scoring.
use linklint.Common.{List, [], false, refl, some, ◌∷◌, ◌≡◌}
use linklint.Score.{
  Reason, aggregate, critical, fold_reason, fold_reasons, lexical, low, round_score,
  severity_for_score,
}
use linklint.Score.Suppress.{
  SuppressionRule, aggregate-apply_suppressions, apply_suppressions, is_suppressed, suppress_reason,
  unsuppressed,
}

abbrev brand : Reason
brand = record {
  code = "brand_homoglyph";
  layer = lexical;
  detail = "b";
  weight = 80;
  suppressed = false;
}

abbrev ascii : Reason
ascii = record {
  code = "ascii_homoglyph";
  layer = lexical;
  detail = "a";
  weight = 20;
  suppressed = false;
}

abbrev script : Reason
script = record {
  code = "dangerous_scheme";
  layer = lexical;
  detail = "s";
  weight = 100;
  suppressed = false;
}

abbrev only_example : List SuppressionRule
only_example = record { code = "brand_homoglyph"; host = some "example.com" } ∷ []

-- 0.8 and 0.2 make 0.84, which is critical.
aggregate_run :
    aggregate (brand ∷ ascii ∷ []) ≡ record { score = 8_400_000_000; severity = critical }
unfolding aggregate fold_reasons fold_reason round_score severity_for_score
aggregate_run = refl

apply_suppressions_run :
    aggregate (apply_suppressions (brand ∷ ascii ∷ []) only_example (some "example.com"))
    ≡ record { score = 2_000_000_000; severity = low }
unfolding aggregate fold_reasons fold_reason round_score severity_for_score apply_suppressions
    suppress_reason is_suppressed
apply_suppressions_run = refl

aggregate-apply_suppressions_example :
    aggregate (apply_suppressions (brand ∷ ascii ∷ []) only_example (some "example.com"))
    ≡ aggregate (unsuppressed only_example (some "example.com") (brand ∷ ascii ∷ []))
aggregate-apply_suppressions_example =
    aggregate-apply_suppressions (brand ∷ ascii ∷ []) only_example (some "example.com")
