-- ===== src/Inspect.antt =====
-- packages/core/src/inspect.ts: the run of the checks of one inspection. The tables of checks, the
-- registry of reason codes and the parser are arguments. A check that throws answers none.
pub mod Policy
pub mod Result
pub mod Checks
pub mod Scores
pub mod Accounts
pub mod Inspection
pub mod Verdict
pub mod Failures
use Prim.Native.String.{◌++◌ as concat}
use linklint.Common.{
  Bool, List, Option, String, [], if◌then◌else◌, none, not, some, ℕ, ◌&&◌, ◌++◌, ◌||◌, ◌∷◌,
}

pub data ConfusableComponent : Type 0 where
  host path query : ConfusableComponent

pub record Confusable : Type 0 where
  pub char : String
  pub codepoint : String
  pub confusable_with : String
  pub component : ConfusableComponent
  pub position : ℕ

pub record CollectedFinding : Type 0 where
  pub code : String
  pub detail : String
  pub confusables : List Confusable

-- A structural scan, and a policy axis: a check without a gate.
pub record Scan (C : Type 0) : Type 0 where
  pub id : String
  pub run : C → Option (List CollectedFinding)

pub record Detector (C : Type 0) : Type 0 where
  pub id : String
  pub agent_gated : Bool
  pub run : C → Option (List CollectedFinding)

-- The findings and the skips so far.
pub record Collected : Type 0 where
  pub findings : List CollectedFinding
  pub skipped : List String

abbrev pub lexical_id : String → String
lexical_id id = concat "lexical:" id

-- The `try` and `catch` around one check.
abbrev pub at_check : String → Option (List CollectedFinding) → Collected → Collected
at_check token none c = record c { skipped = c.skipped ++ (token ∷ []) }
at_check token (some found) c = record c { findings = c.findings ++ found }

module _ {C : Type 0} (context : C) where
  unfoldable pub run_scans : List (Scan C) → Collected → Collected
  run_scans [] c = c
  run_scans (s ∷ ss) c = run_scans ss (at_check (lexical_id s.id) (s.run context) c)

  -- The body of the detectors' loop, with the flag `agentRan`.
  abbrev pub at_detector : Bool → Detector C → Collected × Bool → Collected × Bool
  at_detector agent_mode d state =
      if d.agent_gated && not agent_mode
      then state
      else (at_check (lexical_id d.id) (d.run context) state.0, state.1 || d.agent_gated)

  unfoldable pub run_detectors : Bool → List (Detector C) → Collected × Bool → Collected × Bool
  run_detectors agent_mode [] state = state
  run_detectors agent_mode (d ∷ ds) state =
      run_detectors agent_mode ds (at_detector agent_mode d state)
