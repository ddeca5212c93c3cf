-- ===== src/Enrich/Merge/Scores.antt =====
-- The verdict of an asynchronous inspection (packages/core/src/inspect-async.ts).
use mathlib.Core.List.{append-nil}
use linklint.Common.{
  Bool-cases, List, String, [], arith, inl, inr, is_empty, is_none, map, none, refl, some, ℕ, ◌++◌,
  ◌∷◌, ◌≡◌, ◌≤◌, ◌⊎◌,
}
use linklint.Score.{Reason, aggregate, full_score}
use linklint.Score.Suppress.{SuppressionRule}
use linklint.Inspect.Result.{
  InspectResult, ReasonCodeMeta, build_invalid_result, build_ok_result, invalid, ok, sort_reasons,
}
use linklint.Inspect.{Collected}
use linklint.Inspect.Scores.{aggregate-inserted, aggregate-sorted}
use linklint.Inspect.Verdict.{score_or_zero}
use linklint.Inspect.Inspection.{
  Engine, Input, Options, Parsed, at_context, at_parsed, inspect, other, parse_input, parsed,
  string, structural_run, thrown, unparseable,
}
use linklint.Enrich.{Enricher, EnricherRun}
use linklint.Enrich.Merge.{
  AsyncResult, Domains, Enrichment, Subjected, enrichment_findings, enrichment_reason,
  inspect_async, least, merge_runs, runs_for,
}

-- The score of a valid input is that of its reasons; an invalid input has none.
abbrev IsScored : InspectResult → Type 0
IsScored r =
    ((r.status ≡ ok) × (r.score ≡ some (aggregate r.reasons).score))
    ⊎ ((r.status ≡ invalid) × (r.score ≡ none))

module _ {S C : Type 0} (engine : Engine S C) (options : Options) where
  at_parsed-IsScored :
      (input : String) (c : Collected) (p : Parsed C)
      → IsScored (at_parsed engine options input c p)
  unfolding at_context build_ok_result build_invalid_result
  at_parsed-IsScored input c thrown = inr (refl, refl)
  at_parsed-IsScored input c unparseable = inr (refl, refl)
  at_parsed-IsScored input c (parsed context) = inl (refl, refl)

  inspect-IsScored : (i : Input) → IsScored (inspect engine options i)
  unfolding inspect build_invalid_result
  inspect-IsScored (string input) =
      at_parsed-IsScored input (structural_run engine options input)
        (parse_input engine options input)
  inspect-IsScored (other coerced type_name) = inr (refl, refl)

aggregate-appended_le :
    (rs more : List Reason) → (aggregate rs).score ≤ (aggregate (sort_reasons (rs ++ more))).score
aggregate-appended_le rs more =
    let h = aggregate-inserted rs more [] in
    let left : (aggregate (rs ++ [])).score ≡ (aggregate rs).score = rw (append-nil rs) refl in
    let right : (aggregate (rs ++ (more ++ []))).score ≡ (aggregate (rs ++ more)).score =
      rw (append-nil more) refl in
    rw (aggregate-sorted (rs ++ more)) (omega arith)

least-le : (c : ℕ) (fs : List Subjected) → least c fs ≤ c
least-le c [] = omega arith
least-le c (f ∷ fs) = ground (arith, least-le c fs)

-- What enrichment may do to a verdict.
pub Raises : InspectResult → AsyncResult → Type 0
Raises base out =
    (out.result.status ≡ base.status)
    × (is_none out.result.score ≡ is_none base.score)
    × (score_or_zero base ≤ score_or_zero out.result)
    × (out.confidence ≤ full_score)

module _ (meta : String → ReasonCodeMeta) (rules : List SuppressionRule) (domains : Domains) where
  merge_runs-Raises :
      (base : InspectResult) (enrichers : List Enricher) (runs : List EnricherRun)
      → IsScored base
      → Raises base (merge_runs meta rules domains base enrichers runs)
  unfolding Raises merge_runs
  merge_runs-Raises base enrichers runs (inl (valid, e)) =
      rw (valid, e)
        (
          refl,
          refl,
          aggregate-appended_le base.reasons
              (map (enrichment_reason meta rules domains) (enrichment_findings runs)),
          least-le full_score (enrichment_findings runs),
        )
  merge_runs-Raises base enrichers runs (inr (bad, e)) =
      rw (bad, e) (refl, refl, omega arith, least-le full_score (enrichment_findings runs))

module _ {S C : Type 0} (engine : Engine S C) (options : Options) where
  -- Whatever the enrichers, the cache and the governor answer, enrichment keeps the status of the
  -- lexical result, gives a score exactly where that has one, never lowers it, and never ends with
  -- more than the lexical confidence.
  pub inspect_async-Raises :
      (input : Input) (e : Enrichment)
      → Raises (inspect engine options input) (inspect_async engine options input e)
  unfolding inspect_async
  inspect_async-Raises input e = elim (Bool-cases (is_empty e.enrichers)) [
    | inl none' ↦ rw none' (unfold Raises in (refl, refl, omega arith, omega arith))
    | inr some' ↦ rw some' (
        merge_runs-Raises engine.meta options.suppress_reasons e.domains
          (inspect engine options input) e.enrichers (runs_for (inspect engine options input) e)
          (inspect-IsScored engine options input))
  ]
