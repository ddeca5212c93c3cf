-- ===== src/Enrich/Plan.antt =====
-- packages/core/src/inspect-async.ts: `executeEnrichmentPlan`, the order in which the enrichers of a
-- plan run. A set of indices of steps is the list of these steps, in the set's order; what one
-- enricher reports is an argument, as is the state of the signal at each round.
pub mod Cycle
pub mod Rounds
use linklint.Common.{
  Bool, List, Option, String, [], all, any, codes, false, if◌then◌else◌, is_empty, is_none, ltb,
  none, not, some, str_eq, trim, true, ℕ, ◌++◌, ◌+◌, ◌==◌, ◌∷◌,
}
use linklint.Enrich.{
  Base, Dependencies, Enricher, EnricherRun, EnrichmentOutcome, Payload, check_token,
  framework_report, listed, malformed_list, many_texts, none_given, one_text, run_is_available,
  skipped,
}
use linklint.Enrich.Slots.{because}

pub record PlannedEnricher : Type 0 where
  pub index : ℕ
  pub token : String
  pub enricher : Enricher
  pub dependencies : List String
  pub dependency_shape_valid : Bool

is_blank_text : String → Bool
is_blank_text s = is_empty (trim (codes s))

remove_text : String → List String → List String
remove_text s [] = []
remove_text s (t ∷ ts) = let rest = remove_text s ts in if str_eq t s then rest else t ∷ rest

-- `[...new Set(texts)]`
unique_texts : List String → List String
unfolding remove_text
unique_texts [] = []
unique_texts (t ∷ ts) = t ∷ remove_text t (unique_texts ts)

abbrev pub shape_valid : Dependencies → Bool
unfolding is_blank_text
shape_valid none_given = true
shape_valid malformed_list = false
shape_valid (listed ds) = all (λ d. not (is_blank_text d)) ds

dependencies_of : Dependencies → List String
unfolding unique_texts is_blank_text
dependencies_of none_given = []
dependencies_of malformed_list = []
dependencies_of (listed ds) = if shape_valid (listed ds) then unique_texts ds else []

-- `plan.map`
unfoldable pub plan_steps : ℕ → List Enricher → List PlannedEnricher
unfolding dependencies_of shape_valid
plan_steps index [] = []
plan_steps index (e ∷ es) =
    record {
      index = index;
      token = check_token e;
      enricher = e;
      dependencies = dependencies_of e.depends_on;
      dependency_shape_valid = shape_valid e.depends_on;
    }
    ∷ plan_steps (index + 1) es

abbrev pub token_count : String → List PlannedEnricher → ℕ
token_count token [] = 0
token_count token (s ∷ ss) = (if str_eq s.token token then 1 else 0) + token_count token ss

abbrev pub find_token : String → List PlannedEnricher → Option ℕ
find_token token [] = none
find_token token (s ∷ ss) =
    let rest = find_token token ss in if str_eq s.token token then some s.index else rest

-- `tokenToIndex.get`: the map holds the tokens that stand once.
abbrev pub token_to_index : List PlannedEnricher → String → Option ℕ
token_to_index steps token = if token_count token steps == 1 then find_token token steps else none

-- The array `runs`.
abbrev pub Runs : Type 0
Runs = ℕ → Option EnricherRun

abbrev pub set_run : ℕ → EnricherRun → Runs → Runs
set_run i r runs = λ j. if i == j then some r else runs j

abbrev pub run_at : Runs → Option ℕ → Option EnricherRun
run_at runs none = none
run_at runs (some i) = runs i

abbrev pub is_available : Option EnricherRun → Bool
is_available none = false
is_available (some r) = run_is_available r

abbrev pub is_unavailable : Option EnricherRun → Bool
is_unavailable none = false
is_unavailable (some r) = not (run_is_available r)

abbrev pub has_index : ℕ → List PlannedEnricher → Bool
has_index i steps = any (λ s. s.index == i) steps

abbrev pub keep : (PlannedEnricher → Bool) → List PlannedEnricher → List PlannedEnricher
keep p [] = []
keep p (s ∷ ss) = let rest = keep p ss in if p s then s ∷ rest else rest

abbrev pub keep_texts : (String → Bool) → List String → List String
keep_texts p [] = []
keep_texts p (t ∷ ts) = let rest = keep_texts p ts in if p t then t ∷ rest else rest

pub record State : Type 0 where
  pub runs : Runs
  pub pending : List PlannedEnricher

-- What a round settles, and the run of each.
pub record Choice : Type 0 where
  pub members : List PlannedEnricher
  pub run : PlannedEnricher → EnricherRun

module _ (base : Base) (steps : List PlannedEnricher) where
  abbrev pub skip_run : String → Option Payload → PlannedEnricher → EnricherRun
  skip_run code details s = record {
    token = s.token;
    report = framework_report s.enricher base skipped code false details;
  }

  abbrev pub run_of : Runs → String → Option EnricherRun
  run_of runs token = run_at runs (token_to_index steps token)

  abbrev unknown_details : List String → Option Payload
  unknown_details [] = none
  unknown_details (d ∷ ds) =
      some
        (("reason", one_text "unknown-prerequisite") ∷ ("prerequisites", many_texts (d ∷ ds)) ∷ [])

  -- Why a step cannot be planned.
  unfoldable pub plan_details : PlannedEnricher → Option Payload
  plan_details s =
      if ltb 1 (token_count s.token steps)
      then some (("reason", one_text "duplicate-check-token") ∷ ("token", one_text s.token) ∷ [])
      else if not s.dependency_shape_valid
      then because "invalid-prerequisite-token"
      else unknown_details (keep_texts (λ d. is_none (token_to_index steps d)) s.dependencies)

  abbrev pub at_details : PlannedEnricher → Option Payload → State → State
  at_details s none st = record st { pending = st.pending ++ (s ∷ []) }
  at_details s (some details) st = record st {
    runs = set_run s.index (skip_run "invalid-plan" (some details) s) st.runs;
  }

  unfoldable pub admit_steps : List PlannedEnricher → State → State
  unfolding plan_details
  admit_steps [] st = st
  admit_steps (s ∷ ss) st = admit_steps ss (at_details s (plan_details s) st)

  abbrev pub is_ready : Runs → PlannedEnricher → Bool
  is_ready runs s = all (λ d. is_available (run_of runs d)) s.dependencies

  abbrev pub is_blocked : Runs → PlannedEnricher → Bool
  is_blocked runs s = any (λ d. is_unavailable (run_of runs d)) s.dependencies

  abbrev pub outcomes_at : Option EnricherRun → List EnrichmentOutcome
  outcomes_at none = []
  outcomes_at (some r) = r.report.outcomes

  -- `runs.flatMap`
  abbrev pub previous_outcomes : List PlannedEnricher → Runs → List EnrichmentOutcome
  previous_outcomes [] runs = []
  previous_outcomes (s ∷ ss) runs = outcomes_at (runs s.index) ++ previous_outcomes ss runs

  abbrev pub blocked_run : Runs → PlannedEnricher → EnricherRun
  blocked_run runs s =
      skip_run "prerequisite-unavailable"
        (some (
          (
            "prerequisites",
            many_texts (keep_texts (λ d. is_unavailable (run_of runs d)) s.dependencies),
          )
          ∷ []))
        s

  abbrev pub cycle_run : PlannedEnricher → EnricherRun
  cycle_run s =
      skip_run "dependency-cycle" (some (("prerequisites", many_texts s.dependencies) ∷ [])) s
