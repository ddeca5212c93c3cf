-- ===== src/Inspect/Inspection.antt =====
-- packages/core/src/inspect.ts: the inspection of one input. The option intake, the preparation and
-- the parser are arguments, with an answer for each way in which they end.
use Prim.Native.String.{◌++◌ as concat}
use linklint.Common.{Bool, List, Option, String, [], false, if◌then◌else◌, map, none, some, ◌++◌}
use linklint.Score.Suppress.{SuppressionRule}
use linklint.Inspect.{Collected, Detector, Scan, run_detectors, run_scans}
use linklint.Inspect.Policy.{PolicyOutcome, policy_id, run_policy}
use linklint.Inspect.Result.{InspectResult, ReasonCodeMeta, build_invalid_result, build_ok_result}

-- What a caller hands over: a string, or another value with its best-effort text and its type.
pub data Input : Type 0 where
  string : String → Input
  other : (coerced type_name : String) → Input

-- `parsePrepared` throws, answers null, or answers a context.
pub data Parsed (C : Type 0) : Type 0 where
  thrown : Parsed C
  unparseable : Parsed C
  parsed : C → Parsed C

-- What the inspection reads of the options that the intake answers.
pub record Options : Type 0 where
  pub skipped : List String
  pub agent_mode : Bool
  pub policy_configured : Bool
  pub suppress_configured : Bool
  pub suppress_reasons : List SuppressionRule

-- The tables, the registry and the parser.
pub record Engine (S C : Type 0) : Type 0 where
  pub structural_scans : List (Scan S)
  pub detectors : List (Detector C)
  pub axes : List (Scan C)
  pub meta : String → ReasonCodeMeta
  pub scan_context : String → S
  pub is_blank : String → Bool
  pub parse_prepared : String → Parsed C
  pub describe_parse_failure : String → Option String
  pub host_context : C → Option String

abbrev not_a_string : String → String
not_a_string type_name = concat "input is not a string (got " (concat type_name ")")

abbrev pub no_policy : PolicyOutcome
no_policy = record { findings = []; skipped_axes = []; any_axis_ran = false }

module _ {S C : Type 0} (engine : Engine S C) (options : Options) where
  abbrev pub policy_outcome : C → PolicyOutcome
  policy_outcome context =
      if options.policy_configured then run_policy context engine.axes else no_policy

  -- From the parsed context on.
  unfoldable pub at_context : String → Collected → C → InspectResult
  at_context input structural context =
      let seeded = record structural { skipped = options.skipped ++ structural.skipped } in
      let lexed = run_detectors context options.agent_mode engine.detectors (seeded, false) in
      let outcome = policy_outcome context in
      let all = record lexed.0 {
        skipped = lexed.0.skipped ++ map policy_id outcome.skipped_axes;
      } in
      build_ok_result engine.meta input options.suppress_reasons (engine.host_context context) all
        outcome.findings outcome.any_axis_ran lexed.1 options.suppress_configured

  abbrev pub at_parsed : String → Collected → Parsed C → InspectResult
  at_parsed input structural thrown =
      build_invalid_result engine.meta input structural.findings none options.skipped
  at_parsed input structural unparseable =
      build_invalid_result engine.meta input structural.findings
        (engine.describe_parse_failure input) options.skipped
  at_parsed input structural (parsed context) = at_context input structural context

  -- The blank input, after preparation, is not parsed.
  abbrev pub parse_input : String → Parsed C
  parse_input input = if engine.is_blank input then unparseable else engine.parse_prepared input

  abbrev pub structural_run : String → Collected
  structural_run input =
      run_scans (engine.scan_context input) engine.structural_scans
        (record { findings = []; skipped = [] })

  unfoldable pub inspect : Input → InspectResult
  inspect (string input) = at_parsed input (structural_run input) (parse_input input)
  inspect (other coerced type_name) =
      build_invalid_result engine.meta coerced [] (some (not_a_string type_name)) options.skipped
