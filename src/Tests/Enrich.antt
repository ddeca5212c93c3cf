-- ===== src/Tests/Enrich.antt =====
-- Runs of packages/core/src/inspect-async.ts.
use linklint.Common.{
  All, Bool, List, String, [], false, finite, is_none, map, none, pos, refl, some, true, ℕ, ◌∷◌,
  ◌≡◌,
}
use linklint.Score.{resolution}
use linklint.Score.Suppress.{apply_suppressions}
use linklint.Governor.{omitted}
use linklint.Inspect.{run_detectors, run_scans}
use linklint.Inspect.Policy.{run_axes, run_policy}
use linklint.Inspect.Result.{build_ok_result, sort_reasons}
use linklint.Inspect.Inspection.{at_context, inspect, string}
use linklint.Tests.Inspect.{engine, options}
use linklint.Enrich.{
  Base, Dependencies, Enricher, EnricherFinding, check_token, framework_report, inspection_subject,
  layer_name, listed, no_resolver, none_given, run_is_available, with_degradations,
}
use linklint.Enrich.Schema.{finding_array, legacy_report, normalize_output}
use linklint.Enrich.Slots.{cache_slot_for, cache_ttl_for, key_text, ttl_undefined}
use linklint.Enrich.Runner.{Answers, absent, admit_with, run_enricher, settled, written}
use linklint.Enrich.Runner.Validity.{IsReport}
use linklint.Enrich.Runner.Reports.{run_enricher-IsReport}
use linklint.Enrich.Runner.Calls.{IsFair, run_enricher-IsFair}
use linklint.Enrich.Runner.Writes.{IsWritable, run_enricher-IsWritable}
use linklint.Enrich.Plan.{admit_steps, plan_details, plan_steps}
use linklint.Enrich.Plan.Cycle.{find_dependency_cycle, search_from, visit, visit_prerequisites}
use linklint.Enrich.Plan.Rounds.{
  Running, choose, execute_enrichment_plan, executed, loop, planned, round,
}
use linklint.Enrich.Plan.Rounds.Total.{executed-IsTotal}
use linklint.Enrich.Plan.Rounds.Explained.{Explained, execute_enrichment_plan-IsExplained}
use linklint.Enrich.Merge.{Enrichment, inspect_async, is_configured, merge_runs, run_step, runs_for}
use linklint.Enrich.Merge.Scores.{Raises, inspect_async-Raises}
use linklint.Enrich.Merge.Accounts.{Accounts, inspect_async-Accounts}

abbrev source : String → Dependencies → Enricher
source id depends_on = record {
  id = id;
  layer = resolution;
  depends_on = depends_on;
  has_cache_key = true;
  cache_ttl_ms = some (finite (pos 60));
  cache_ttl_ms_for = no_resolver;
  timeout_ms = omitted;
}

abbrev dns : Enricher
dns = source "dns" none_given

-- A source after another, one that is not in the plan, and two that wait for each other.
abbrev plan : List Enricher
plan =
    source "tls" (listed ("resolution:dns" ∷ []))
    ∷ dns
    ∷ source "lost" (listed ("resolution:gone" ∷ []))
    ∷ source "a" (listed ("resolution:b" ∷ []))
    ∷ source "b" (listed ("resolution:a" ∷ []))
    ∷ source "after" (listed ("resolution:a" ∷ []))
    ∷ []

abbrev base : Base
base = record { input = "a.b"; parsed = none }

abbrev odd : EnricherFinding
odd = record { code = "mixed_script"; detail = "d"; confusables = []; confidence = some 7 }

abbrev answers : Answers
answers = record {
  aborted_at_start = false;
  key = key_text "k1";
  read = settled absent;
  aborted_after_read = false;
  admission = admit_with omitted;
  output = settled (finding_array (odd ∷ []));
  aborted_after_run = false;
  record_throws = false;
  ttl = ttl_undefined;
  write = settled written;
  aborted_after_write = false;
}

abbrev found_running : Running
found_running s previous = legacy_report s.enricher base (odd ∷ [])

abbrev never : ℕ → Bool
never k = false

plan_run :
    map (λ r. run_is_available r) (execute_enrichment_plan base plan found_running never)
    ≡ true ∷ true ∷ false ∷ false ∷ false ∷ false ∷ []
unfolding execute_enrichment_plan executed planned loop round choose admit_steps plan_details
    plan_steps check_token framework_report legacy_report find_dependency_cycle search_from visit
    visit_prerequisites
plan_run = refl

run_enricher-IsReport_example : IsReport dns base (run_enricher dns base true answers true).report
run_enricher-IsReport_example = run_enricher-IsReport dns base true true answers

run_enricher-IsFair_example :
    IsFair dns base true answers true (run_enricher dns base true answers true).calls
run_enricher-IsFair_example = run_enricher-IsFair dns base true true answers

run_enricher-IsWritable_example :
    All (IsWritable dns base) (run_enricher dns base true answers true).calls
run_enricher-IsWritable_example = run_enricher-IsWritable dns base true true answers

executed-IsTotal_example :
    ((executed base (plan_steps 0 plan) found_running never).pending ≡ [])
    × All
        (λ s.
          is_none ((executed base (plan_steps 0 plan) found_running never).runs s.index) ≡ false)
        (plan_steps 0 plan)
executed-IsTotal_example = executed-IsTotal base (plan_steps 0 plan) found_running never

execute_enrichment_plan-IsExplained_example :
    Explained base
      (plan_steps 0 plan)
      found_running
      never
      (executed base (plan_steps 0 plan) found_running never).runs
      (plan_steps 0 plan)
      (execute_enrichment_plan base plan found_running never)
execute_enrichment_plan-IsExplained_example =
    execute_enrichment_plan-IsExplained base plan found_running never

abbrev enrichment : Enrichment
enrichment = record {
  enrichers = dns ∷ [];
  parsed_url = none;
  has_governor = true;
  has_cache = true;
  answers = λ s previous. answers;
  aborted = never;
  domains = record {
    of_host = λ host'. none;
    of_url = λ url. some (some "a.b");
    canonical = λ d. d;
  };
}

async_run :
    ((inspect_async engine options (string "a.b") enrichment).result.checks_run
      ≡ "lexical" ∷ "policy" ∷ "resolution:dns" ∷ [])
    × ((inspect_async engine options (string "a.b") enrichment).result.checks_skipped
        ≡ "options:allowHost" ∷ "lexical:backslash" ∷ "policy:tld" ∷ "reputation" ∷ [])
    × ((inspect_async engine options (string "a.b") enrichment).confidence ≡ 7)
unfolding inspect_async merge_runs runs_for run_step run_enricher cache_slot_for normalize_output
    legacy_report with_degradations is_configured layer_name check_token inspect at_context
    build_ok_result sort_reasons run_scans run_detectors run_policy run_axes apply_suppressions
    execute_enrichment_plan executed planned loop round choose admit_steps plan_details plan_steps
    framework_report inspection_subject cache_ttl_for
async_run = (refl, refl, refl)

inspect_async-Raises_example :
    Raises
      (inspect engine options (string "a.b"))
      (inspect_async engine options (string "a.b") enrichment)
inspect_async-Raises_example = inspect_async-Raises engine options (string "a.b") enrichment

inspect_async-Accounts_example :
    Accounts
      (inspect engine options (string "a.b"))
      enrichment
      (inspect_async engine options (string "a.b") enrichment)
inspect_async-Accounts_example =
    inspect_async-Accounts engine options (string "a.b") enrichment refl
