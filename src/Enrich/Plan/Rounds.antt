-- ===== src/Enrich/Plan/Rounds.antt =====
-- packages/core/src/inspect-async.ts: the loop of `executeEnrichmentPlan`, one function for a round.
-- The run of one enricher, given the outcomes before it, and the signal are arguments.
pub mod Settles
pub mod Ends
pub mod Total
pub mod Causes
pub mod Stalled
pub mod Reached
pub mod Chosen
pub mod Justified
pub mod Explained
use linklint.Common.{
  Bool, List, Option, [], if◌then◌else◌, is_empty, length, none, not, some, suc, zero, ℕ, ◌∷◌,
}
use linklint.Enrich.{Base, Enricher, EnricherRun, EnrichmentOutcome, EnrichmentReport, one_text}
use linklint.Enrich.Plan.{
  Choice, PlannedEnricher, Runs, State, admit_steps, blocked_run, cycle_run, has_index, is_blocked,
  is_ready, keep, plan_steps, previous_outcomes, set_run, skip_run,
}
use linklint.Enrich.Plan.Cycle.{find_dependency_cycle}

abbrev pub settle : (PlannedEnricher → EnricherRun) → List PlannedEnricher → Runs → Runs
settle run [] runs = runs
settle run (s ∷ ss) runs = settle run ss (set_run s.index (run s) runs)

abbrev pub or_first : List PlannedEnricher → List PlannedEnricher → List PlannedEnricher
or_first (c ∷ cs) pending = c ∷ cs
or_first [] [] = []
or_first [] (s ∷ ss) = s ∷ []

-- The run of one enricher: what it reports on a step after the outcomes so far.
abbrev pub Running : Type 0
Running = PlannedEnricher → List EnrichmentOutcome → EnrichmentReport

module _ (base : Base) (steps : List PlannedEnricher) (running : Running) (aborted : ℕ → Bool) where
  abbrev pub started_run : List EnrichmentOutcome → PlannedEnricher → EnricherRun
  started_run previous s = record { token = s.token; report = running s previous }

  abbrev pub or_cycle : Choice → List PlannedEnricher → Choice
  or_cycle blocked pending =
      if is_empty blocked.members
      then record {
        members = or_first (find_dependency_cycle steps pending) pending;
        run = cycle_run base steps;
      }
      else blocked

  abbrev pub or_blocked : Choice → State → Choice
  or_blocked ready st =
      if is_empty ready.members
      then or_cycle
          (record {
            members = keep (is_blocked base steps st.runs) st.pending;
            run = blocked_run base steps st.runs;
          })
          st.pending
      else ready

  unfoldable pub choose : ℕ → State → Choice
  choose k st =
      if aborted k
      then record { members = st.pending; run = skip_run base steps "caller-aborted" none }
      else or_blocked
          (record {
            members = keep (is_ready base steps st.runs) st.pending;
            run = started_run (previous_outcomes base steps steps st.runs);
          })
          st

  abbrev pub apply : Choice → State → State
  apply choice st = record {
    runs = settle choice.run choice.members st.runs;
    pending = keep (λ s. not (has_index s.index choice.members)) st.pending;
  }

  unfoldable pub round : ℕ → State → State
  unfolding choose
  round k st = apply (choose k st) st

  unfoldable pub loop : (fuel k : ℕ) → State → State
  unfolding round
  loop zero k st = st
  loop (suc fuel) k st =
      let rest = loop fuel (suc k) (round k st) in if is_empty st.pending then st else rest

  abbrev pub or_unsettled : Option EnricherRun → PlannedEnricher → EnricherRun
  or_unsettled (some r) s = r
  or_unsettled none s =
      skip_run base steps "invalid-plan" (some (("reason", one_text "unsettled-plan-node") ∷ [])) s

  abbrev pub final_runs : List PlannedEnricher → Runs → List EnricherRun
  final_runs [] runs = []
  final_runs (s ∷ ss) runs = or_unsettled (runs s.index) s ∷ final_runs ss runs

  abbrev pub no_runs : Runs
  no_runs = λ i. none

  -- The state before the loop.
  unfoldable pub planned : State
  planned = admit_steps base steps steps (record { runs = no_runs; pending = [] })

  -- The state after the loop, with a round for each step.
  unfoldable pub executed : State
  unfolding planned loop
  executed = loop (length steps) 0 planned

unfoldable pub execute_enrichment_plan :
    Base → List Enricher → Running → (ℕ → Bool) → List EnricherRun
unfolding executed
execute_enrichment_plan base plan running aborted =
    let steps = plan_steps 0 plan in
    final_runs base steps running aborted steps (executed base steps running aborted).runs
