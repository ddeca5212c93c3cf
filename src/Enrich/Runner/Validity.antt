-- ===== src/Enrich/Runner/Validity.antt =====
-- The reports that fit an enricher (packages/core/src/inspect-async.ts).
use mathlib.Core.Path.{subst}
use mathlib.Core.Option.{some_inj}
use text.Mathlib.TextPositions.{eq_refl}
use linklint.Common.{
  All, All-append, Bool, List, Option, String, [], all, arith, false, is_empty, none, refl, some,
  true, ℕ, ◌&&◌, ◌++◌, ◌∷◌, ◌≡◌,
}
use linklint.Score.{Layer, lexical, policy, reputation, resolution}
use linklint.Enrich.{
  Base, Enricher, EnricherFinding, EnrichmentReport, Payload, RuntimeDegradation,
  degradation_outcomes, failure, framework_report, skipped, with_degradations,
}
use linklint.Enrich.Schema.{
  Output, candidate, finding_array, fits_identity, is_enrichment_outcome, is_enrichment_report,
  layer_eq, legacy_report, normalize_cached_report, normalize_output, unshaped,
}
use linklint.Enrich.Runner.{Progress, degrade, degrade_by}
use linklint.Enrich.Slots.{
  KeyAnswer, TtlAnswer, cache_slot_for, cache_ttl_for, key_text, key_threw, not_a_text, nullish,
}

pub all-append {ℓ} :
    {A : Type ℓ} (p : A → Bool) (xs ys : List A) → all p (xs ++ ys) ≡ all p xs && all p ys
all-append p [] ys = refl
all-append p (x ∷ xs) ys = ground (arith, all-append p xs ys)

pub is_empty-append {ℓ} :
    {A : Type ℓ} (xs ys : List A) → is_empty xs ≡ false → is_empty (xs ++ ys) ≡ false
is_empty-append [] ys h = cc
is_empty-append (x ∷ xs) ys h = refl

pub layer_eq_refl : (l : Layer) → layer_eq l l ≡ true
layer_eq_refl lexical = refl
layer_eq_refl resolution = refl
layer_eq_refl reputation = refl
layer_eq_refl policy = refl

-- A degradation that the runner makes is a failure.
abbrev pub AreFailures : Progress → Type 0
AreFailures p = All (λ d. d.status ≡ failure) p.degradations

module _ (enricher : Enricher) (base : Base) where
  -- A report with an outcome, all of this enricher and each fit for its status.
  abbrev pub IsReport : EnrichmentReport → Type 0
  IsReport report = fits_identity enricher.id enricher.layer report ≡ true

  pub framework_report-skipped :
      (code : String) (retryable : Bool) (details : Option Payload)
      → IsReport (framework_report enricher base skipped code retryable details)
  unfolding framework_report fits_identity
  framework_report-skipped code retryable details =
      rw (eq_refl enricher.id, layer_eq_refl enricher.layer)

  pub framework_report-failure :
      (code : String) (retryable : Bool) (details : Option Payload)
      → IsReport (framework_report enricher base failure code retryable details)
  unfolding framework_report fits_identity
  framework_report-failure code retryable details =
      rw (eq_refl enricher.id, layer_eq_refl enricher.layer)

  pub degradation_outcomes-fit :
      (ds : List RuntimeDegradation)
      → All (λ d. d.status ≡ failure) ds
      → all
          (is_enrichment_outcome enricher.id enricher.layer)
          (degradation_outcomes enricher base ds)
        ≡ true
  unfolding framework_report
  degradation_outcomes-fit [] h = refl
  degradation_outcomes-fit (d ∷ ds) h =
      rw (h.0, eq_refl enricher.id, layer_eq_refl enricher.layer) (degradation_outcomes-fit ds h.1)

  pub with_degradations-IsReport :
      (report : EnrichmentReport) (ds : List RuntimeDegradation)
      → IsReport report
      → All (λ d. d.status ≡ failure) ds
      → IsReport (with_degradations report enricher base ds)
  unfolding with_degradations fits_identity
  with_degradations-IsReport report [] h f = h
  with_degradations-IsReport report (d ∷ ds) h f =
      let more = degradation_outcomes enricher base (d ∷ ds) in
      let joined =
        all-append (is_enrichment_outcome enricher.id enricher.layer) report.outcomes more in
      let some_left = is_empty-append report.outcomes more in
      ground (arith, degradation_outcomes-fit (d ∷ ds) f, joined, some_left)

  pub legacy_report-IsReport :
      (findings : List EnricherFinding) → IsReport (legacy_report enricher base findings)
  unfolding legacy_report fits_identity
  legacy_report-IsReport [] = rw (eq_refl enricher.id, layer_eq_refl enricher.layer)
  legacy_report-IsReport (f ∷ fs) = rw (eq_refl enricher.id, layer_eq_refl enricher.layer)

  pub normalize_output-IsReport :
      (o : Output) (r : EnrichmentReport) → normalize_output o enricher base ≡ some r → IsReport r
  unfolding normalize_output is_enrichment_report
  normalize_output-IsReport (finding_array fs) r h =
      subst IsReport (some_inj.0 h) (legacy_report-IsReport fs)
  normalize_output-IsReport (candidate report) r h = ground arith
  normalize_output-IsReport unshaped r h = absurd (ground arith)

  pub normalize_cached_report-IsReport :
      (o : Output) (r : EnrichmentReport) → normalize_cached_report o enricher ≡ some r → IsReport r
  unfolding normalize_cached_report is_enrichment_report
  normalize_cached_report-IsReport (finding_array fs) r h = absurd (ground arith)
  normalize_cached_report-IsReport (candidate report) r h = ground arith
  normalize_cached_report-IsReport unshaped r h = absurd (ground arith)

abbrev pub OnDegradation : Option RuntimeDegradation → Type 0
OnDegradation o = (d : RuntimeDegradation) → o ≡ some d → d.status ≡ failure

pub AreFailures-degrade :
    (d : RuntimeDegradation) (p : Progress)
    → d.status ≡ failure
    → AreFailures p
    → AreFailures (degrade d p)
AreFailures-degrade d p e h = All-append (λ x. x.status ≡ failure) p.degradations (d ∷ []) h (e, tt)

pub AreFailures-degrade_by :
    (o : Option RuntimeDegradation) (p : Progress)
    → OnDegradation o
    → AreFailures p
    → AreFailures (degrade_by o p)
AreFailures-degrade_by none p e h = h
AreFailures-degrade_by (some d) p e h = AreFailures-degrade d p (e d refl) h

pub cache_slot_for-OnDegradation :
    (enricher : Enricher) (base : Base) (answer : KeyAnswer)
    → OnDegradation (cache_slot_for enricher base answer).degradation
unfolding cache_slot_for
cache_slot_for-OnDegradation enricher base key_threw d h = ground arith
cache_slot_for-OnDegradation enricher base nullish d h = ground arith
cache_slot_for-OnDegradation enricher base not_a_text d h = ground arith
cache_slot_for-OnDegradation enricher base (key_text key) d h = ground arith

pub cache_ttl_for-OnDegradation :
    (enricher : Enricher) (ttl : Option ℕ) (answer : TtlAnswer)
    → OnDegradation (cache_ttl_for enricher ttl answer).degradation
unfolding cache_ttl_for
cache_ttl_for-OnDegradation enricher ttl answer d h = ground arith
