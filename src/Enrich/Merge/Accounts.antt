-- ===== src/Enrich/Merge/Accounts.antt =====
-- No enricher is left out of an asynchronous inspection (packages/core/src/inspect-async.ts).
use linklint.Common.{
  All, Bool, List, String, [], arith, false, is_empty, map, refl, true, ℕ, ◌&&◌, ◌++◌, ◌+◌, ◌||◌,
  ◌∷◌, ◌≡◌,
}
use linklint.Inspect.Inspection.{Engine, Input, Options, inspect}
use linklint.Enrich.{
  Base, Enricher, EnricherRun, EnrichmentOutcome, EnrichmentReport, check_token, framework_report,
}
use linklint.Enrich.Plan.Rounds.Settles.{All-weaken}
use linklint.Enrich.Merge.Tokens.{
  dropped_or_kept, has_text, has_text-append_left, has_text-append_right, is_accounted,
  is_accounted_mono, or_mono, runs-accounted,
}
use linklint.Enrich.Merge.{
  AsyncResult, Enrichment, base_of, drop_placeholders, inspect_async, is_configured, is_placeholder,
  merge_runs, run_step, run_tokens, runs_for, skipped_tokens,
}
use linklint.Score.{Layer}
use linklint.Inspect.Result.{InspectResult}
use linklint.Enrich.Schema.{fits_identity}
use linklint.Enrich.Runner.Reports.{run_enricher-IsReport}
use linklint.Enrich.Plan.{PlannedEnricher, Runs, plan_steps, previous_outcomes}
use linklint.Enrich.Plan.Rounds.{Running, executed}
use linklint.Enrich.Plan.Rounds.Causes.{
  Cause, at_round, by_abort, by_block, by_cycle, by_plan, by_start,
}
use linklint.Enrich.Plan.Rounds.Explained.{Explained, execute_enrichment_plan-IsExplained}

module _ (base : Base) (steps : List PlannedEnricher) (running : Running) (aborted : ℕ → Bool) where
  -- A run that has a cause has the token of its step, and an outcome.
  Cause-reports :
      (runs : Runs) (s : PlannedEnricher) (r : EnricherRun)
      → ((t : PlannedEnricher) (previous : List EnrichmentOutcome)
          → is_empty (running t previous).outcomes ≡ false)
      → Cause base steps running aborted runs s r
      → (r.token ≡ s.token) × (is_empty r.report.outcomes ≡ false)
  unfolding framework_report
  Cause-reports runs s r h (by_start k on valid then ready e) =
      rw e (
        refl,
        h s (previous_outcomes base steps steps (at_round base steps running aborted k).runs),
      )
  Cause-reports runs s r h (by_plan details bad e) = rw e (refl, refl)
  Cause-reports runs s r h (by_block k then blocked e) = rw e (refl, refl)
  Cause-reports runs s r h (by_cycle around e) = rw e (refl, refl)
  Cause-reports runs s r h (by_abort k stop e) = rw e (refl, refl)

  Explained-reports :
      (runs : Runs) (ss : List PlannedEnricher) (rs : List EnricherRun)
      → ((t : PlannedEnricher) (previous : List EnrichmentOutcome)
          → is_empty (running t previous).outcomes ≡ false)
      → Explained base steps running aborted runs ss rs
      → (map (λ r. r.token) rs ≡ map (λ s. s.token) ss)
        × All (λ r. is_empty r.report.outcomes ≡ false) rs
  unfolding Explained
  Explained-reports runs [] [] h x = (refl, tt)
  Explained-reports runs [] (r ∷ rs) h x = absurd x
  Explained-reports runs (s ∷ ss) [] h x = absurd x
  Explained-reports runs (s ∷ ss) (r ∷ rs) h x =
      let (same, some') = Cause-reports runs s r h x.0 in
      let (tokens, rest) = Explained-reports runs ss rs h x.1 in
      (rw (same, tokens) refl, (some', rest))

plan_steps-tokens :
    (n : ℕ) (es : List Enricher) → map (λ s. s.token) (plan_steps n es) ≡ map check_token es
unfolding plan_steps
plan_steps-tokens n [] = refl
plan_steps-tokens n (e ∷ es) = rw (plan_steps-tokens (n + 1) es) refl

report-nonempty :
    (id : String) (layer : Layer) (r : EnrichmentReport)
    → fits_identity id layer r ≡ true
    → is_empty r.outcomes ≡ false
unfolding fits_identity
report-nonempty id layer r h = ground arith

module _ (result : InspectResult) (e : Enrichment) where
  runs_for-reports :
      (map (λ r. r.token) (runs_for result e) ≡ map check_token e.enrichers)
      × All (λ r. is_empty r.report.outcomes ≡ false) (runs_for result e)
  unfolding run_step runs_for
  runs_for-reports =
      let base = base_of result e in
      let (tokens, some') =
        Explained-reports base (plan_steps 0 e.enrichers) (run_step base e) e.aborted
          (executed base (plan_steps 0 e.enrichers) (run_step base e) e.aborted).runs
          (plan_steps 0 e.enrichers) (runs_for result e)
          (λ s previous.
            report-nonempty s.enricher.id s.enricher.layer (run_step base e s previous) (
              run_enricher-IsReport s.enricher base e.has_governor e.has_cache
                (e.answers s previous)))
          (execute_enrichment_plan-IsExplained base e.enrichers (run_step base e) e.aborted) in
      (rw tokens (plan_steps-tokens 0 e.enrichers), some')

-- What an asynchronous result says of its plan and of the skips of the lexical result.
pub Accounts : InspectResult → Enrichment → AsyncResult → Type 0
Accounts base e out =
    (map (λ r. r.token) (runs_for base e) ≡ map check_token e.enrichers)
    × All (λ r. is_accounted out.result.checks_run out.result.checks_skipped r ≡ true)
        (runs_for base e)
    × All
        (λ t.
          (is_placeholder t && is_configured e.enrichers t) || has_text t out.result.checks_skipped
          ≡ true)
        base.checks_skipped

module _ {S C : Type 0} (engine : Engine S C) (options : Options) where
  -- The enrichment is never silently clean: there is one run for each enricher, in the order of the
  -- plan; the token of a run that wholly completed is in the checks that ran, that of any other run
  -- is in the skipped checks; and each skip of the lexical result stays, but for the placeholder of a
  -- layer that has an enricher.
  pub inspect_async-Accounts :
      (input : Input) (e : Enrichment)
      → is_empty e.enrichers ≡ false
      → Accounts (inspect engine options input) e (inspect_async engine options input e)
  unfolding Accounts inspect_async merge_runs
  inspect_async-Accounts input e h =
      let base = inspect engine options input in
      let runs = runs_for base e in
      rw h (
        (runs_for-reports base e).0,
        All-weaken runs
            (λ r.
              is_accounted_mono (run_tokens runs) (base.checks_run ++ run_tokens runs)
                (skipped_tokens runs)
                (drop_placeholders e.enrichers base.checks_skipped ++ skipped_tokens runs) r
                (λ t. has_text-append_right t base.checks_run (run_tokens runs))
                (λ t.
                  has_text-append_right t (drop_placeholders e.enrichers base.checks_skipped)
                    (skipped_tokens runs)))
            (runs-accounted runs (runs_for-reports base e).1),
        All-weaken base.checks_skipped
            (λ t.
              or_mono (is_placeholder t && is_configured e.enrichers t)
                (has_text t (drop_placeholders e.enrichers base.checks_skipped))
                (has_text t
                  (drop_placeholders e.enrichers base.checks_skipped ++ skipped_tokens runs))
                (has_text-append_left t (drop_placeholders e.enrichers base.checks_skipped)
                  (skipped_tokens runs)))
            (dropped_or_kept e.enrichers base.checks_skipped),
      )
