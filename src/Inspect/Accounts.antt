-- ===== src/Inspect/Accounts.antt =====
-- What an inspection reports (packages/core/src/inspect.ts, schema/serialize.ts).
use linklint.Common.{
  Bool-cases, List, String, [], if◌then◌else◌, inl, inr, map, refl, ◌++◌, ◌∷◌, ◌≡◌,
}
use linklint.Score.Suppress.{apply_suppressions}
use linklint.Inspect.{CollectedFinding, Scan, lexical_id}
use linklint.Inspect.Policy.{policy_id}
use linklint.Inspect.Checks.{
  detector_findings, failed_detectors, failed_scans, run_detectors-found, run_policy-found,
  run_scans-found, scan_findings,
}
use linklint.Inspect.Result.{build_ok_result, reason_of, sort_reasons}
use linklint.Inspect.Inspection.{
  Engine, Options, at_context, inspect, parse_input, parsed, policy_outcome, string,
}

module _ {S C : Type 0} (engine : Engine S C) (options : Options) (input : String) (context : C)
    (at : parse_input engine options input ≡ parsed context) where
  abbrev pub scanned : List CollectedFinding
  scanned = scan_findings (engine.scan_context input) engine.structural_scans

  abbrev pub detected : List CollectedFinding
  detected = detector_findings context options.agent_mode engine.detectors

  -- The policy axes, where a policy is configured.
  abbrev pub consulted : List (Scan C)
  consulted = if options.policy_configured then engine.axes else []

  policy_outcome-found :
      ((policy_outcome engine options context).findings ≡ scan_findings context consulted)
      × ((policy_outcome engine options context).skipped_axes
          ≡ failed_scans context (λ i. i) consulted)
  policy_outcome-found = elim (Bool-cases options.policy_configured) [
    | inl on ↦ rw (on, run_policy-found context engine.axes) (refl, refl)
    | inr off ↦ rw off (refl, refl)
  ]

  -- Every check of a parsed input either contributes its findings or is named as skipped: the
  -- reasons are those of the scans, of the active detectors and of the policy axes that completed,
  -- those only where a policy is configured, after suppression and sorted; the skips are the option
  -- keys, the scans, the detectors and the axes that threw, in that order, and the two layers that
  -- an inspection never runs.
  pub inspect-accounts :
      ((inspect engine options (string input)).reasons
        ≡ sort_reasons (
            apply_suppressions
              (map
                (reason_of engine.meta)
                ((scanned ++ detected) ++ scan_findings context consulted))
              options.suppress_reasons
              (engine.host_context context)))
      × ((inspect engine options (string input)).checks_skipped
          ≡ ((options.skipped
                ++ failed_scans (engine.scan_context input) lexical_id engine.structural_scans)
              ++ failed_detectors context options.agent_mode engine.detectors)
            ++ map policy_id (failed_scans context (λ i. i) consulted)
            ++ ("resolution" ∷ "reputation" ∷ []))
  unfolding inspect at_context build_ok_result
  inspect-accounts =
      rw
        (
          at,
          run_scans-found (engine.scan_context input) engine.structural_scans
              (record { findings = []; skipped = [] }),
          policy_outcome-found.0,
          policy_outcome-found.1,
          run_detectors-found context options.agent_mode engine.detectors,
        )
        (refl, refl)
