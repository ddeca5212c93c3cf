-- ===== src/Inspect/Checks.antt =====
-- What the runs of the checks collect (packages/core/src/inspect.ts, policy/policy.ts).
use mathlib.Core.Path.{sym}
use mathlib.Core.List.{append_assoc, append-nil}
use linklint.Common.{
  Bool, List, Option, String, [], any, arith, false, if◌then◌else◌, ltb, none, not, refl, some,
  true, ◌&&◌, ◌++◌, ◌||◌, ◌∙◌, ◌∷◌, ◌≡◌,
}
use linklint.Inspect.{
  Collected, CollectedFinding, Detector, Scan, at_check, at_detector, lexical_id, run_detectors,
  run_scans,
}
use linklint.Inspect.Policy.{Run, at_axis, run_axes, run_policy}

abbrev pub only_if {ℓ} : {A : Type ℓ} → Bool → List A → List A
only_if b xs = if b then xs else []

-- What a check contributes, and how it is reported where it throws.
abbrev pub found : Option (List CollectedFinding) → List CollectedFinding
found none = []
found (some fs) = fs

abbrev pub failed : String → Option (List CollectedFinding) → List String
failed token none = token ∷ []
failed token (some fs) = []

at_check_lem :
    (token : String) (o : Option (List CollectedFinding)) (c : Collected)
    → at_check token o c
      ≡ record { findings = c.findings ++ found o; skipped = c.skipped ++ failed token o }
at_check_lem token none c = rw (append-nil c.findings)
at_check_lem token (some fs) c = rw (append-nil c.skipped)

module _ {C : Type 0} (context : C) where
  abbrev pub scan_findings : List (Scan C) → List CollectedFinding
  scan_findings [] = []
  scan_findings (s ∷ ss) = found (s.run context) ++ scan_findings ss

  abbrev pub failed_scans : (String → String) → List (Scan C) → List String
  failed_scans token [] = []
  failed_scans token (s ∷ ss) = failed (token s.id) (s.run context) ++ failed_scans token ss

  -- A gated detector runs in agent mode only.
  abbrev pub is_active : Bool → Detector C → Bool
  is_active agent_mode d = not (d.agent_gated && not agent_mode)

  abbrev pub detector_findings : Bool → List (Detector C) → List CollectedFinding
  detector_findings m [] = []
  detector_findings m (d ∷ ds) =
      only_if (is_active m d) (found (d.run context)) ++ detector_findings m ds

  abbrev pub failed_detectors : Bool → List (Detector C) → List String
  failed_detectors m [] = []
  failed_detectors m (d ∷ ds) =
      only_if (is_active m d) (failed (lexical_id d.id) (d.run context)) ++ failed_detectors m ds

  abbrev pub has_gated : List (Detector C) → Bool
  has_gated ds = any (λ d. d.agent_gated) ds

  pub run_scans-found :
      (ss : List (Scan C)) (c : Collected)
      → run_scans context ss c ≡ record {
        findings = c.findings ++ scan_findings ss;
        skipped = c.skipped ++ failed_scans lexical_id ss;
      }
  unfolding run_scans
  run_scans-found [] c = rw (append-nil c.findings, append-nil c.skipped)
  run_scans-found (s ∷ ss) c =
      run_scans-found ss (at_check (lexical_id s.id) (s.run context) c)
      ∙ rw (
        at_check_lem (lexical_id s.id) (s.run context) c,
        append_assoc c.findings (found (s.run context)) (scan_findings ss),
        append_assoc c.skipped (failed (lexical_id s.id) (s.run context))
            (failed_scans lexical_id ss),
      )

  at_detector_lem :
      (m : Bool) (d : Detector C) (state : Collected × Bool)
      → at_detector context m d state ≡ (
        record {
          findings = state.0.findings ++ only_if (is_active m d) (found (d.run context));
          skipped =
              state.0.skipped ++ only_if (is_active m d) (failed (lexical_id d.id) (d.run context));
        },
        state.1 || (m && d.agent_gated),
      )
  at_detector_lem m d state =
      let nil_findings = append-nil state.0.findings in
      let nil_skipped = append-nil state.0.skipped in
      let checked = at_check_lem (lexical_id d.id) (d.run context) state.0 in ground arith

  pub run_detectors-found :
      (m : Bool) (ds : List (Detector C)) (state : Collected × Bool)
      → run_detectors context m ds state ≡ (
        record {
          findings = state.0.findings ++ detector_findings m ds;
          skipped = state.0.skipped ++ failed_detectors m ds;
        },
        state.1 || (m && has_gated ds),
      )
  unfolding run_detectors
  run_detectors-found m [] state =
      let nil_findings = append-nil state.0.findings in
      let nil_skipped = append-nil state.0.skipped in ground arith
  run_detectors-found m (d ∷ ds) state =
      let active = is_active m d in
      run_detectors-found m ds (at_detector context m d state)
      ∙ rw
          (
            at_detector_lem m d state,
            append_assoc state.0.findings (only_if active (found (d.run context)))
                (detector_findings m ds),
            append_assoc state.0.skipped (only_if active (failed (lexical_id d.id) (d.run context)))
                (failed_detectors m ds),
          )
          (ground arith)

  at_axis_lem :
      (id : String) (o : Option (List CollectedFinding)) (r : Run)
      → ((at_axis id o r).findings ≡ r.findings ++ found o)
        × ((at_axis id o r).skipped_axes ≡ r.skipped_axes ++ failed id o)
  at_axis_lem id none r = (sym (append-nil r.findings), refl)
  at_axis_lem id (some fs) r = (refl, sym (append-nil r.skipped_axes))

  pub run_axes-found :
      (as' : List (Scan C)) (r : Run)
      → ((run_axes context as' r).findings ≡ r.findings ++ scan_findings as')
        × ((run_axes context as' r).skipped_axes ≡ r.skipped_axes ++ failed_scans (λ i. i) as')
  unfolding run_axes
  run_axes-found [] r = (sym (append-nil r.findings), sym (append-nil r.skipped_axes))
  run_axes-found (a ∷ as') r =
      let (found_eq, failed_eq) = run_axes-found as' (at_axis a.id (a.run context) r) in
      let (one_found, one_failed) = at_axis_lem a.id (a.run context) r in
      (
        found_eq
            ∙ rw one_found (append_assoc r.findings (found (a.run context)) (scan_findings as')),
        failed_eq
            ∙ rw one_failed (
                append_assoc r.skipped_axes (failed a.id (a.run context))
                  (failed_scans (λ i. i) as')),
      )

  abbrev pub completes : Scan C → Bool
  completes a = elim (a.run context) [ none ↦ false | some fs ↦ true ]

  run_axes-completed :
      (as' : List (Scan C)) (r : Run)
      → ltb 0 (run_axes context as' r).completed ≡ ltb 0 r.completed || any completes as'
  unfolding run_axes
  run_axes-completed [] r = ground arith
  run_axes-completed (a ∷ as') r =
      let rest = run_axes-completed as' (at_axis a.id (a.run context) r) in ground arith

  -- The policy channel has the findings of the axes that complete and the ids of those that throw,
  -- each in the registry's order, and counts as run exactly when an axis completes.
  pub run_policy-found :
      (axes : List (Scan C))
      → run_policy context axes ≡ record {
        findings = scan_findings axes;
        skipped_axes = failed_scans (λ i. i) axes;
        any_axis_ran = any completes axes;
      }
  unfolding run_policy
  run_policy-found axes =
      let start : Run = record { findings = []; skipped_axes = []; completed = 0 } in
      let (found_eq, failed_eq) = run_axes-found axes start in
      rw (found_eq, failed_eq, run_axes-completed axes start)
