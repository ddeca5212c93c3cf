-- ===== src/Inspect/Failures.antt =====
-- What the failure of one detector costs (packages/core/src/inspect.ts).
use mathlib.Core.List.{map-append, append_assoc}
use mathlib.Core.Path.{sym}
use linklint.Common.{
  Bool, List, String, [], ap, arith, false, map, none, refl, true, ◌++◌, ◌∙◌, ◌∷◌, ◌≡◌, ◌≤◌,
}
use linklint.Score.{aggregate}
use linklint.Inspect.{CollectedFinding, Detector}
use linklint.Inspect.Checks.{detector_findings, found, is_active, only_if, scan_findings}
use linklint.Inspect.Result.{build_invalid_result, reason_of}
use linklint.Inspect.Inspection.{
  Engine, Input, Options, Parsed, at_parsed, inspect, other, parse_input, parsed, policy_outcome,
  string, structural_run, thrown, unparseable,
}
use linklint.Inspect.Scores.{aggregate-apply_suppressions_inserted}
use linklint.Inspect.Verdict.{at_context-scored, built, pair-projections, score_or_zero}

regrouped :
    {A : Type 0} (s a b y p : List A) → (s ++ (a ++ (b ++ y))) ++ p ≡ (s ++ a) ++ (b ++ (y ++ p))
regrouped s a b y p =
    append_assoc s (a ++ (b ++ y)) p
    ∙ ap (λ t. s ++ t) (append_assoc a (b ++ y) p ∙ ap (λ t. a ++ t) (append_assoc b y p))
    ∙ sym (append_assoc s a (b ++ (y ++ p)))

only_if_nil : {A : Type 0} (b : Bool) → only_if {A = A} b [] ≡ []
only_if_nil true = refl
only_if_nil false = refl

module _ {C : Type 0} (context : C) (m : Bool) where
  detector_findings-append :
      (xs ys : List (Detector C))
      → detector_findings context m (xs ++ ys)
        ≡ detector_findings context m xs ++ detector_findings context m ys
  detector_findings-append [] ys = refl
  detector_findings-append (d ∷ ds) ys =
      ap (λ t. only_if (is_active context m d) (found (d.run context)) ++ t)
        (detector_findings-append ds ys)
      ∙ sym (
          append_assoc (only_if (is_active context m d) (found (d.run context)))
            (detector_findings context m ds) (detector_findings context m ys))

  -- A detector that throws finds nothing.
  detector_findings-thrown :
      (xs ys : List (Detector C)) (d : Detector C)
      → d.run context ≡ none
      → detector_findings context m (xs ++ (d ∷ ys)) ≡ detector_findings context m (xs ++ ys)
  detector_findings-thrown [] ys d h = rw (h, only_if_nil (is_active context m d))
  detector_findings-thrown (x ∷ xs) ys d h =
      ap (λ t. only_if (is_active context m x) (found (x.run context)) ++ t)
        (detector_findings-thrown xs ys d h)

module _ {S C : Type 0} where
  abbrev pub with_detectors : Engine S C → List (Detector C) → Engine S C
  with_detectors engine ds = record engine { detectors = ds }

  built-inserted :
      (engine : Engine S C) (options : Options) (input : String) (context : C)
      (xs ys : List (Detector C)) (d : Detector C) (ps : List CollectedFinding)
      → (aggregate (built (with_detectors engine (xs ++ ys)) options input context ps)).score
        ≤ (aggregate
            (built (with_detectors engine (xs ++ (d ∷ ys))) options input context ps)).score
  built-inserted engine options input context xs ys d ps =
      let m = options.agent_mode in
      let s = scan_findings (engine.scan_context input) engine.structural_scans in
      let a = detector_findings context m xs in
      let y = detector_findings context m ys in
      let b = only_if (is_active context m d) (found (d.run context)) in
      let f = reason_of engine.meta in
      rw
        (
          detector_findings-append context m xs ys,
          detector_findings-append context m xs (d ∷ ys),
          regrouped s a [] y ps,
          regrouped s a b y ps,
          map-append f (s ++ a) (y ++ ps),
          map-append f (s ++ a) (b ++ (y ++ ps)),
          map-append f b (y ++ ps),
        )
        (aggregate-apply_suppressions_inserted options.suppress_reasons
          (engine.host_context context) (map f (s ++ a)) (map f b) (map f (y ++ ps)))

  at_parsed-score_or_zero :
      (engine : Engine S C) (options : Options) (input : String) (p : Parsed C)
      (xs ys : List (Detector C)) (d d' : Detector C)
      → ((context : C) → d.run context ≡ none)
      → score_or_zero (
          at_parsed
            (with_detectors engine (xs ++ (d ∷ ys)))
            options
            input
            (structural_run engine options input)
            p)
        ≤ score_or_zero (
            at_parsed
              (with_detectors engine (xs ++ (d' ∷ ys)))
              options
              input
              (structural_run engine options input)
              p)
  unfolding build_invalid_result
  at_parsed-score_or_zero engine options input thrown xs ys d d' h = omega arith
  at_parsed-score_or_zero engine options input unparseable xs ys d d' h = omega arith
  at_parsed-score_or_zero engine options input (parsed context) xs ys d d' h =
      let ps = (policy_outcome engine options context).findings in
      let failing = with_detectors engine (xs ++ (d ∷ ys)) in
      let working = with_detectors engine (xs ++ (d' ∷ ys)) in
      let low = pair-projections (at_context-scored failing options input context) in
      let high = pair-projections (at_context-scored working options input context) in
      rw (low.0, high.0, detector_findings-thrown context options.agent_mode xs ys d (h context))
        (built-inserted engine options input context xs ys d' ps)

  -- The score is a lower bound where a detector fails: whatever the detector would have found, with
  -- its findings the score would be at least as high.
  pub inspect-lower_bound :
      (engine : Engine S C) (options : Options) (i : Input) (xs ys : List (Detector C))
      (d d' : Detector C)
      → ((context : C) → d.run context ≡ none)
      → score_or_zero (inspect (with_detectors engine (xs ++ (d ∷ ys))) options i)
        ≤ score_or_zero (inspect (with_detectors engine (xs ++ (d' ∷ ys))) options i)
  unfolding inspect
  inspect-lower_bound engine options (string input) xs ys d d' h =
      at_parsed-score_or_zero engine options input (parse_input engine options input) xs ys d d' h
  inspect-lower_bound engine options (other coerced type_name) xs ys d d' h =
      unfold build_invalid_result in omega arith
