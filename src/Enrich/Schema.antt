-- ===== src/Enrich/Schema.antt =====
-- packages/core/src/schema/enrich.ts and inspect-async.ts: which outputs are taken as reports. The
-- JSON shape of the parts of an outcome is what `candidate` stands for.
use linklint.Common.{
  Bool, List, Option, String, [], all, codes, false, if◌then◌else◌, is_empty, is_none, none, not,
  some, str_eq, trim, true, ◌&&◌, ◌∷◌,
}
use linklint.Score.{Layer, lexical, policy, reputation, resolution}
use linklint.Enrich.{
  Base, Enricher, EnricherFinding, EnrichmentEvidence, EnrichmentOutcome, EnrichmentReport,
  ProvenanceKind, declared, failure, inspection_subject, legacy_incomplete, no_hit, one_text,
  skipped, success, unavailable,
}

-- An enricher's output: an array of findings, a value of a report's shape, or another value.
pub data Output : Type 0 where
  finding_array : List EnricherFinding → Output
  candidate : EnrichmentReport → Output
  unshaped : Output

abbrev pub layer_eq : Layer → Layer → Bool
layer_eq lexical lexical = true
layer_eq resolution resolution = true
layer_eq reputation reputation = true
layer_eq policy policy = true
layer_eq _ _ = false

abbrev pub kind_eq : ProvenanceKind → ProvenanceKind → Bool
kind_eq declared declared = true
kind_eq legacy_incomplete legacy_incomplete = true
kind_eq unavailable unavailable = true
kind_eq _ _ = false

-- What the status asks of the findings, the evidence and the cause.
abbrev pub status_fits : EnrichmentOutcome → Bool
status_fits o = elim o.status [
  | success ↦ is_none o.cause && not (is_empty o.findings && is_empty o.evidence)
  | no_hit ↦ is_none o.cause && is_empty o.findings
  | skipped ↦ is_empty o.findings && not (is_none o.cause)
  | failure ↦ is_empty o.findings && not (is_none o.cause)
]

-- `isEnrichmentOutcome` with an expected identity.
abbrev pub is_enrichment_outcome : String → Layer → EnrichmentOutcome → Bool
is_enrichment_outcome source_id layer o =
    str_eq o.source_id source_id && layer_eq o.layer layer && status_fits o

-- `isEnrichmentLayer`
abbrev is_enrichment_layer : Layer → Bool
is_enrichment_layer resolution = true
is_enrichment_layer reputation = true
is_enrichment_layer _ = false

-- The tests of an outcome's own id and layer, which are those of the enricher.
unfoldable pub is_named : String → Layer → Bool
is_named source_id layer = not (is_empty (trim (codes source_id))) && is_enrichment_layer layer

unfoldable pub fits_identity : String → Layer → EnrichmentReport → Bool
fits_identity source_id layer report =
    not (is_empty report.outcomes) && all (is_enrichment_outcome source_id layer) report.outcomes

-- `isEnrichmentReport` with an expected identity.
unfoldable pub is_enrichment_report : String → Layer → EnrichmentReport → Bool
unfolding is_named fits_identity
is_enrichment_report source_id layer report =
    is_named source_id layer && fits_identity source_id layer report

abbrev pub is_declared : EnrichmentOutcome → Bool
is_declared o = kind_eq o.provenance declared && all (λ e. kind_eq e.provenance declared) o.evidence

abbrev empty_result : EnrichmentEvidence
empty_result = record {
  type = "legacy.empty-result";
  provenance = legacy_incomplete;
  payload = ("semantics", one_text "unknown") ∷ [];
}

unfoldable pub legacy_report : Enricher → Base → List EnricherFinding → EnrichmentReport
legacy_report enricher base findings = record {
  outcomes =
      record {
        source_id = enricher.id;
        layer = enricher.layer;
        status = success;
        subject = inspection_subject base;
        provenance = legacy_incomplete;
        evidence = if is_empty findings then empty_result ∷ [] else [];
        findings = findings;
        cause = none;
      }
      ∷ [];
}

unfoldable pub normalize_output : Output → Enricher → Base → Option EnrichmentReport
unfolding legacy_report is_enrichment_report
normalize_output (finding_array findings) enricher base =
    some (legacy_report enricher base findings)
normalize_output (candidate report) enricher base =
    if is_enrichment_report enricher.id enricher.layer report && all is_declared report.outcomes
    then some report
    else none
normalize_output unshaped enricher base = none

-- The loop over the outcomes of a cached report.
abbrev pub is_cacheable : EnrichmentOutcome → Bool
is_cacheable o =
    not (kind_eq o.provenance unavailable)
    && all (λ e. kind_eq e.provenance o.provenance) o.evidence

unfoldable pub normalize_cached_report : Output → Enricher → Option EnrichmentReport
unfolding is_enrichment_report
normalize_cached_report (finding_array findings) enricher = none
normalize_cached_report (candidate report) enricher =
    if is_enrichment_report enricher.id enricher.layer report && all is_cacheable report.outcomes
    then some report
    else none
normalize_cached_report unshaped enricher = none
