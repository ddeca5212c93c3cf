-- ===== src/Enrich/Merge.antt =====
-- packages/core/src/inspect-async.ts: `inspectAsync`, which folds the runs of the enrichers back onto
-- the lexical result. The parsed components that the result carries are an argument, as are the
-- answers of each enricher's functions and the derivation of a subject's registrable domain.
pub mod Tokens
pub mod Accounts
pub mod Scores
use linklint.Common.{
  Bool, List, Option, String, [], any, codes, false, get_or, if◌then◌else◌, is_empty, ltb, map,
  none, some, str_eq, true, ℕ, ◌&&◌, ◌++◌, ◌||◌, ◌∷◌,
}
use linklint.Score.{Reason, ScoreResult, aggregate, full_score}
use linklint.Score.Suppress.{SuppressionRule, apply_suppressions}
use linklint.Inspect.{Confusable}
use linklint.Inspect.Result.{InspectResult, ReasonCodeMeta, invalid, ok, sort_reasons}
use linklint.Inspect.Inspection.{Engine, Input, Options, inspect, parsed}
use linklint.Enrich.{
  Base, Enricher, EnricherFinding, EnricherRun, EnrichmentOutcome, EnrichmentSubject, ParsedUrl,
  failure, host_subject, is_completed, layer_name, no_hit, skipped, success, url_subject,
}
use linklint.Enrich.Runner.{Answers, run_enricher}
use linklint.Enrich.Plan.{PlannedEnricher}
use linklint.Enrich.Plan.Rounds.{Running, execute_enrichment_plan}

-- A result with its confidence, in units of which `full_score` make 1, and its outcomes.
pub record AsyncResult : Type 0 where
  pub result : InspectResult
  pub confidence : ℕ
  pub enrichment : Option (List EnrichmentOutcome)

-- The registrable domain of a host and of a URL, none where the derivation throws, and the
-- canonical form of a domain.
pub record Domains : Type 0 where
  pub of_host : String → Option (Option String)
  pub of_url : String → Option (Option String)
  pub canonical : String → String

-- A finding and the subject of its outcome.
abbrev pub Subjected : Type 0
Subjected = EnricherFinding × EnrichmentSubject

abbrev host_context_of : Domains → Option (Option String) → Option String
host_context_of domains none = none
host_context_of domains (some none) = none
host_context_of domains (some (some d)) =
    if is_empty (codes d) then none else some (domains.canonical d)

abbrev pub subject_host_context : Domains → EnrichmentSubject → Option String
subject_host_context domains subject = elim subject.kind [
  | host_subject ↦ host_context_of domains (domains.of_host subject.value)
  | url_subject ↦ host_context_of domains (domains.of_url subject.value)
]

abbrev pub is_incomplete : EnrichmentOutcome → Bool
is_incomplete o = elim o.status [
  | success ↦ false
  | no_hit ↦ false
  | skipped ↦ true
  | failure ↦ true
]

abbrev with_subject : EnrichmentSubject → List EnricherFinding → List Subjected
with_subject subject [] = []
with_subject subject (f ∷ fs) = (f, subject) ∷ with_subject subject fs

abbrev found_in : EnrichmentOutcome → List Subjected
found_in o = elim o.status [
  | success ↦ with_subject o.subject o.findings
  | no_hit ↦ []
  | skipped ↦ []
  | failure ↦ []
]

abbrev findings_of : List EnrichmentOutcome → List Subjected
findings_of [] = []
findings_of (o ∷ os) = found_in o ++ findings_of os

-- The loop over the runs.
abbrev pub enrichment_findings : List EnricherRun → List Subjected
enrichment_findings [] = []
enrichment_findings (r ∷ rs) = findings_of r.report.outcomes ++ enrichment_findings rs

abbrev pub enrichment_outcomes : List EnricherRun → List EnrichmentOutcome
enrichment_outcomes [] = []
enrichment_outcomes (r ∷ rs) = r.report.outcomes ++ enrichment_outcomes rs

abbrev pub run_tokens : List EnricherRun → List String
run_tokens [] = []
run_tokens (r ∷ rs) =
    if any is_completed r.report.outcomes then r.token ∷ run_tokens rs else run_tokens rs

abbrev pub skipped_tokens : List EnricherRun → List String
skipped_tokens [] = []
skipped_tokens (r ∷ rs) =
    if any is_incomplete r.report.outcomes then r.token ∷ skipped_tokens rs else skipped_tokens rs

abbrev confusables_in : List Subjected → List Confusable
confusables_in [] = []
confusables_in (f ∷ fs) = f.0.confusables ++ confusables_in fs

abbrev confidence_of : Subjected → ℕ
confidence_of f = elim f.0.confidence [ none ↦ full_score | some c ↦ c ]

-- `Math.min`
abbrev pub least : ℕ → List Subjected → ℕ
least c [] = c
least c (f ∷ fs) =
    let rest = least c fs in if ltb (confidence_of f) rest then confidence_of f else rest

abbrev pub is_placeholder : String → Bool
is_placeholder token = str_eq token "resolution" || str_eq token "reputation"

unfoldable pub is_configured : List Enricher → String → Bool
unfolding layer_name
is_configured enrichers token = any (λ e. str_eq (layer_name e.layer) token) enrichers

-- The placeholders of the layers that have an enricher are dropped.
abbrev pub drop_placeholders : List Enricher → List String → List String
drop_placeholders enrichers [] = []
drop_placeholders enrichers (t ∷ ts) =
    let rest = drop_placeholders enrichers ts in
    if is_placeholder t && is_configured enrichers t then rest else t ∷ rest

module _ (meta : String → ReasonCodeMeta) (rules : List SuppressionRule) (domains : Domains) where
  abbrev projected : EnricherFinding → Reason
  projected f = record {
    code = f.code;
    layer = (meta f.code).layer;
    detail = f.detail;
    weight = (meta f.code).weight;
    suppressed = false;
  }

  -- `applySuppressions([projected], ...)[0]`
  abbrev pub enrichment_reason : Subjected → Reason
  enrichment_reason f =
      get_or (apply_suppressions (projected f.0 ∷ []) rules (subject_host_context domains f.1)) 0
        (projected f.0)

  abbrev merged_reasons : InspectResult → List EnricherRun → List Reason
  merged_reasons base runs =
      sort_reasons (base.reasons ++ map enrichment_reason (enrichment_findings runs))

  abbrev rescored : InspectResult → ScoreResult → InspectResult
  rescored base scored = elim base.status [
    | ok ↦ record base { score = some scored.score; severity = some scored.severity }
    | invalid ↦ base
  ]

  unfoldable pub merge_runs : InspectResult → List Enricher → List EnricherRun → AsyncResult
  unfolding sort_reasons
  merge_runs base enrichers runs =
      let reasons = merged_reasons base runs in
      let scored = rescored base (aggregate reasons) in
      record {
        result = record scored {
          reasons = reasons;
          confusables = base.confusables ++ confusables_in (enrichment_findings runs);
          checks_run = base.checks_run ++ run_tokens runs;
          checks_skipped = drop_placeholders enrichers base.checks_skipped ++ skipped_tokens runs;
        };
        confidence = least full_score (enrichment_findings runs);
        enrichment = some (enrichment_outcomes runs);
      }

-- Without enrichers the result is the lexical one.
abbrev pub lexical_result : InspectResult → AsyncResult
lexical_result base = record { result = base; confidence = full_score; enrichment = none }

-- What the caller configures, and what the enrichers, the cache, the governor and the signal answer.
pub record Enrichment : Type 0 where
  pub enrichers : List Enricher
  pub parsed_url : Option ParsedUrl
  pub has_governor : Bool
  pub has_cache : Bool
  pub answers : PlannedEnricher → List EnrichmentOutcome → Answers
  pub aborted : ℕ → Bool
  pub domains : Domains

-- The run of a step in its context.
unfoldable pub run_step : Base → Enrichment → Running
unfolding run_enricher
run_step base e s previous =
    (run_enricher s.enricher base e.has_governor (e.answers s previous) e.has_cache).report

abbrev pub base_of : InspectResult → Enrichment → Base
base_of result e = record { input = result.input; parsed = e.parsed_url }

unfoldable pub runs_for : InspectResult → Enrichment → List EnricherRun
unfolding execute_enrichment_plan
runs_for result e =
    execute_enrichment_plan (base_of result e) e.enrichers (run_step (base_of result e) e) e.aborted

module _ {S C : Type 0} (engine : Engine S C) (options : Options) where
  unfoldable pub inspect_async : Input → Enrichment → AsyncResult
  unfolding inspect merge_runs
  inspect_async input e =
      let base = inspect engine options input in
      if is_empty e.enrichers
      then lexical_result base
      else merge_runs engine.meta options.suppress_reasons e.domains base e.enrichers
          (runs_for base e)
