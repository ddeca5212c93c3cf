-- ===== src/Enrich/Runner/ReadBack.antt =====
-- Which reports the cache gives back as they were written (packages/core/src/inspect-async.ts).
use mathlib.Core.Path.{subst}
use mathlib.Core.Option.{some_inj}
use linklint.Common.{
  Bool, Bool-cases, List, [], all, arith, false, if◌then◌else◌, inl, inr, none, not, refl, some,
  true, ◌&&◌, ◌∷◌, ◌≡◌,
}
use linklint.Enrich.{
  Base, Enricher, EnricherFinding, EnrichmentEvidence, EnrichmentOutcome, EnrichmentReport,
  ProvenanceKind, declared, legacy_incomplete, unavailable,
}
use linklint.Enrich.Schema.{
  Output, candidate, finding_array, is_cacheable, is_declared, is_enrichment_report, is_named,
  kind_eq, legacy_report, normalize_cached_report, normalize_output, unshaped,
}
use linklint.Enrich.Runner.Validity.{legacy_report-IsReport}

cacheable_from :
    (k : ProvenanceKind) (es : List EnrichmentEvidence)
    → kind_eq k declared && all (λ e. kind_eq e.provenance declared) es ≡ true
    → not (kind_eq k unavailable) && all (λ e. kind_eq e.provenance k) es ≡ true
cacheable_from declared es h = h
cacheable_from legacy_incomplete es h = cc
cacheable_from unavailable es h = cc

is_declared-is_cacheable : (o : EnrichmentOutcome) → is_declared o ≡ true → is_cacheable o ≡ true
is_declared-is_cacheable o h = cacheable_from o.provenance o.evidence h

all-implies :
    {A : Type 0} (p q : A → Bool) (xs : List A)
    → ((x : A) → p x ≡ true → q x ≡ true)
    → all p xs ≡ true
    → all q xs ≡ true
all-implies p q [] f h = refl
all-implies p q (x ∷ xs) f h =
    let ih = all-implies p q xs f (ground arith) in let e = f x (ground arith) in ground arith

module _ (enricher : Enricher) (base : Base) where
  -- The validator of cached values takes the report back unchanged, unless the enricher has a blank
  -- id or a layer that is none of enrichment.
  abbrev pub IsReadBack : EnrichmentReport → Type 0
  IsReadBack r =
      normalize_cached_report (candidate r) enricher
      ≡ (if is_named enricher.id enricher.layer then some r else none)

  legacy_report-cacheable :
      (fs : List EnricherFinding)
      → all is_cacheable (legacy_report enricher base fs).outcomes ≡ true
  unfolding legacy_report
  legacy_report-cacheable [] = refl
  legacy_report-cacheable (f ∷ fs) = refl

  legacy_report-IsReadBack :
      (fs : List EnricherFinding) → IsReadBack (legacy_report enricher base fs)
  unfolding normalize_cached_report is_enrichment_report
  legacy_report-IsReadBack fs =
      let fits = legacy_report-IsReport enricher base fs in
      let stored = legacy_report-cacheable fs in
      elim (Bool-cases (is_named enricher.id enricher.layer)) [
        | inl named ↦ rw (named, fits, stored) refl
        | inr unnamed ↦ rw unnamed refl
      ]

  report-named :
      (report : EnrichmentReport)
      → is_enrichment_report enricher.id enricher.layer report ≡ true
      → is_named enricher.id enricher.layer ≡ true
  unfolding is_enrichment_report
  report-named report h = ground arith

  candidate-IsReadBack :
      (report r : EnrichmentReport) (valid all_declared : Bool)
      → is_enrichment_report enricher.id enricher.layer report ≡ valid
      → all is_declared report.outcomes ≡ all_declared
      → (if valid && all_declared then some report else none) ≡ some r
      → IsReadBack r
  unfolding normalize_cached_report
  candidate-IsReadBack report r true true v d h =
      let fits = all-implies is_declared is_cacheable report.outcomes is_declared-is_cacheable d in
      subst IsReadBack (some_inj.0 h) (rw (v, fits, report-named report v))
  candidate-IsReadBack report r true false v d h = absurd (ground arith)
  candidate-IsReadBack report r false d' v d h = absurd (ground arith)

  pub normalize_output-IsReadBack :
      (o : Output) (r : EnrichmentReport) → normalize_output o enricher base ≡ some r → IsReadBack r
  unfolding normalize_output normalize_cached_report
  normalize_output-IsReadBack (finding_array fs) r h =
      subst IsReadBack (some_inj.0 h) (legacy_report-IsReadBack fs)
  normalize_output-IsReadBack (candidate report) r h =
      candidate-IsReadBack report r (is_enrichment_report enricher.id enricher.layer report)
        (all is_declared report.outcomes) refl refl h
  normalize_output-IsReadBack unshaped r h = absurd (ground arith)
