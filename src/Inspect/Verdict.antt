-- ===== src/Inspect/Verdict.antt =====
-- The verdict of an inspection (packages/core/src/inspect.ts, schema/serialize.ts).
use mathlib.Core.List.{map-append, append-nil}
use mathlib.Core.Path.{sym}
use linklint.Common.{
  All, Bool, List, Option, String, [], ap, arith, false, map, none, refl, some, true, ℕ, ◌++◌, ◌↔◌,
  ◌∙◌, ◌∷◌, ◌≡◌,
}
use linklint.Score.{Reason, ScoreResult, Severity, aggregate}
use linklint.Score.Suppress.{apply_suppressions}
use linklint.Inspect.{Collected, CollectedFinding}
use linklint.Inspect.Checks.{
  detector_findings, run_detectors-found, run_policy-found, run_scans-found, scan_findings,
}
use linklint.Inspect.Result.{
  InspectResult, ReasonCodeMeta, build_invalid_result, build_ok_result, invalid, reason_of,
}
use linklint.Inspect.Inspection.{
  Engine, Input, Options, Parsed, at_context, at_parsed, inspect, other, parse_input, parsed,
  policy_outcome, string, structural_run, thrown, unparseable,
}
use linklint.Inspect.Scores.{aggregate-sorted, aggregate-weightless}

abbrev pub score_or_zero : InspectResult → ℕ
score_or_zero r = elim r.score [ none ↦ 0 | some s ↦ s ]

abbrev pub scored : ScoreResult → Option ℕ × Option Severity
scored r = (some r.score, some r.severity)

-- The parsed context of an input, where it has one.
abbrev pub context_of : {C : Type 0} → Parsed C → Option C
context_of thrown = none
context_of unparseable = none
context_of (parsed context) = some context

-- Whether the caller configured the policy channel.
abbrev pub with_policy : Options → Bool → Options
with_policy options b = record options { policy_configured = b }

All-reasons :
    (meta : String → ReasonCodeMeta) (fs : List CollectedFinding)
    → All (λ f. (meta f.code).weight ≡ 0) fs
    → All (λ r. r.weight ≡ 0) (map (reason_of meta) fs)
All-reasons meta [] h = tt
All-reasons meta (f ∷ fs) h = (h.0, All-reasons meta fs h.1)

pub pair-projections : {a b : Option ℕ × Option Severity} → a ≡ b → (a.0 ≡ b.0) × (a.1 ≡ b.1)
pair-projections e = (ap (λ p. p.0) e, ap (λ p. p.1) e)

module _ {S C : Type 0} where
  -- What aggregation sees of a parsed input.
  abbrev pub built : Engine S C → Options → String → C → List CollectedFinding → List Reason
  built engine options input context policy_findings =
      apply_suppressions
        (map (reason_of engine.meta) (
          (scan_findings (engine.scan_context input) engine.structural_scans
            ++ detector_findings context options.agent_mode engine.detectors)
          ++ policy_findings))
        options.suppress_reasons (engine.host_context context)

  pub at_context-scored :
      (engine : Engine S C) (options : Options) (input : String) (context : C)
      → (
        (at_context engine options input (structural_run engine options input) context).score,
        (at_context engine options input (structural_run engine options input) context).severity,
      )
        ≡ scored (
            aggregate
              (built engine options input context (policy_outcome engine options context).findings))
  unfolding at_context build_ok_result
  at_context-scored engine options input context =
      rw
        (
          run_scans-found (engine.scan_context input) engine.structural_scans
              (record { findings = []; skipped = [] }),
          run_detectors-found context options.agent_mode engine.detectors,
        )
        (ap scored (
          aggregate-sorted
            (built engine options input context (policy_outcome engine options context).findings)))

  abbrev pub understood : Engine S C → Options → Input → Option C
  understood engine options (string input) = context_of (parse_input engine options input)
  understood engine options (other coerced type_name) = none

  at_parsed-closed :
      (engine : Engine S C) (options : Options) (input : String) (c : Collected) (p : Parsed C)
      → (((at_parsed engine options input c p).status ≡ invalid) ↔ (context_of p ≡ none))
        × (((at_parsed engine options input c p).score ≡ none) ↔ (context_of p ≡ none))
        × (((at_parsed engine options input c p).severity ≡ none) ↔ (context_of p ≡ none))
  unfolding at_context build_ok_result build_invalid_result
  at_parsed-closed engine options input c thrown = ground arith
  at_parsed-closed engine options input c unparseable = ground arith
  at_parsed-closed engine options input c (parsed context) = ground arith

  -- The inspection fails closed: an input is invalid, without a score and without a severity,
  -- exactly when it is no string, is blank, or is not parsed.
  pub inspect-invalid_iff :
      (engine : Engine S C) (options : Options) (i : Input)
      → (((inspect engine options i).status ≡ invalid) ↔ (understood engine options i ≡ none))
        × (((inspect engine options i).score ≡ none) ↔ (understood engine options i ≡ none))
        × (((inspect engine options i).severity ≡ none) ↔ (understood engine options i ≡ none))
  unfolding inspect
  inspect-invalid_iff engine options (string input) =
      at_parsed-closed engine options input (structural_run engine options input)
        (parse_input engine options input)
  inspect-invalid_iff engine options (other coerced type_name) =
      unfold build_invalid_result in ground arith

  policy-weightless :
      (engine : Engine S C) (options : Options) (input : String) (context : C)
      → All (λ f. (engine.meta f.code).weight ≡ 0) (scan_findings context engine.axes)
      → aggregate (built engine options input context (scan_findings context engine.axes))
        ≡ aggregate (built engine options input context [])
  policy-weightless engine options input context h =
      let lexed =
        scan_findings (engine.scan_context input) engine.structural_scans
        ++ detector_findings context options.agent_mode engine.detectors in
      let found = scan_findings context engine.axes in
      rw (map-append (reason_of engine.meta) lexed found, append-nil lexed)
        (aggregate-weightless options.suppress_reasons (engine.host_context context)
          (map (reason_of engine.meta) lexed) (map (reason_of engine.meta) found)
          (All-reasons engine.meta found h))

  at_parsed-policy :
      (engine : Engine S C) (options : Options) (input : String) (p : Parsed C)
      → ((context : C)
          → All (λ f. (engine.meta f.code).weight ≡ 0) (scan_findings context engine.axes))
      → ((at_parsed engine
            (with_policy options true)
            input
            (structural_run engine options input)
            p).score
          ≡ (at_parsed engine
              (with_policy options false)
              input
              (structural_run engine options input)
              p).score)
        × ((at_parsed engine
              (with_policy options true)
              input
              (structural_run engine options input)
              p).severity
            ≡ (at_parsed engine
                (with_policy options false)
                input
                (structural_run engine options input)
                p).severity)
  unfolding build_invalid_result
  at_parsed-policy engine options input thrown h = (refl, refl)
  at_parsed-policy engine options input unparseable h = (refl, refl)
  at_parsed-policy engine options input (parsed context) h =
      let on = at_context-scored engine (with_policy options true) input context in
      let off = at_context-scored engine (with_policy options false) input context in
      let same = policy-weightless engine options input context (h context) in
      pair-projections (on ∙ rw (run_policy-found context engine.axes) (ap scored same) ∙ sym off)

  -- The policy channel annotates only: where the registry gives no weight to the codes that the
  -- axes report, the score and the severity of any input are the same with the channel as without.
  pub inspect-policy_neutral :
      (engine : Engine S C) (options : Options) (i : Input)
      → ((context : C)
          → All (λ f. (engine.meta f.code).weight ≡ 0) (scan_findings context engine.axes))
      → ((inspect engine (with_policy options true) i).score
          ≡ (inspect engine (with_policy options false) i).score)
        × ((inspect engine (with_policy options true) i).severity
            ≡ (inspect engine (with_policy options false) i).severity)
  unfolding inspect
  inspect-policy_neutral engine options (string input) h =
      at_parsed-policy engine options input (parse_input engine options input) h
  inspect-policy_neutral engine options (other coerced type_name) h =
      unfold build_invalid_result in (refl, refl)
