-- ===== src/Enrich.antt =====
-- packages/core/src/schema/enrich.ts and inspect-async.ts: what an enricher declares and reports.
-- Times of observation, freshness and the text of a provenance are left out of the records.
pub mod Schema
pub mod Slots
pub mod Runner
pub mod Plan
pub mod Merge
use Prim.Native.String.{◌++◌ as concat}
use linklint.Common.{
  Bool, List, Number, Option, String, [], all, false, if◌then◌else◌, is_empty, is_none, none, some,
  true, ℕ, ◌++◌, ◌∷◌,
}
use linklint.Score.{Layer, lexical, policy, reputation, resolution}
use linklint.Inspect.{Confusable}
use linklint.Governor.{TimeoutSetting}

pub data EnrichmentStatus : Type 0 where
  success no_hit skipped failure : EnrichmentStatus

pub data SubjectKind : Type 0 where
  url_subject host_subject : SubjectKind

pub record EnrichmentSubject : Type 0 where
  pub kind : SubjectKind
  pub value : String

pub data ProvenanceKind : Type 0 where
  declared legacy_incomplete unavailable : ProvenanceKind

pub data PayloadValue : Type 0 where
  one_text : String → PayloadValue
  many_texts : List String → PayloadValue

abbrev pub Payload : Type 0
Payload = List (String × PayloadValue)

pub record EnrichmentEvidence : Type 0 where
  pub type : String
  pub provenance : ProvenanceKind
  pub payload : Payload

pub record EnrichmentCause : Type 0 where
  pub code : String
  pub retryable : Bool
  pub details : Option Payload

-- A confidence is counted in units of which `full_score` make 1.
pub record EnricherFinding : Type 0 where
  pub code : String
  pub detail : String
  pub confusables : List Confusable
  pub confidence : Option ℕ

pub record EnrichmentOutcome : Type 0 where
  pub source_id : String
  pub layer : Layer
  pub status : EnrichmentStatus
  pub subject : EnrichmentSubject
  pub provenance : ProvenanceKind
  pub evidence : List EnrichmentEvidence
  pub findings : List EnricherFinding
  pub cause : Option EnrichmentCause

pub record EnrichmentReport : Type 0 where
  pub outcomes : List EnrichmentOutcome

-- `dependsOn`: left out, no array of non-blank strings, or an array of strings.
pub data Dependencies : Type 0 where
  none_given malformed_list : Dependencies
  listed : List String → Dependencies

-- `cacheTtlMsFor`
pub data DynamicTtl : Type 0 where
  no_resolver invalid_resolver resolver : DynamicTtl

-- What an enricher declares; what its functions answer is an argument of the run.
pub record Enricher : Type 0 where
  pub id : String
  pub layer : Layer
  pub depends_on : Dependencies
  pub has_cache_key : Bool
  pub cache_ttl_ms : Option Number
  pub cache_ttl_ms_for : DynamicTtl
  pub timeout_ms : TimeoutSetting

-- What the runner reads of the lexical result.
pub record ParsedUrl : Type 0 where
  pub scheme : Option String
  pub effective_host : Option String

pub record Base : Type 0 where
  pub input : String
  pub parsed : Option ParsedUrl

pub record EnricherRun : Type 0 where
  pub token : String
  pub report : EnrichmentReport

unfoldable pub layer_name : Layer → String
layer_name lexical = "lexical"
layer_name resolution = "resolution"
layer_name reputation = "reputation"
layer_name policy = "policy"

unfoldable pub check_token : Enricher → String
unfolding layer_name
check_token enricher = concat (layer_name enricher.layer) (concat ":" enricher.id)

abbrev host_subject_of : String → Option String → EnrichmentSubject
host_subject_of input none = record { kind = url_subject; value = input }
host_subject_of input (some name) = record { kind = host_subject; value = name }

abbrev pub parsed_subject : String → Option ParsedUrl → EnrichmentSubject
parsed_subject input none = record { kind = url_subject; value = input }
parsed_subject input (some parsed) =
    if is_none parsed.scheme
    then host_subject_of input parsed.effective_host
    else record { kind = url_subject; value = input }

unfoldable pub inspection_subject : Base → EnrichmentSubject
inspection_subject base = parsed_subject base.input base.parsed

unfoldable pub framework_report :
    Enricher → Base → EnrichmentStatus → String → Bool → Option Payload → EnrichmentReport
framework_report enricher base status code retryable details = record {
  outcomes =
      record {
        source_id = enricher.id;
        layer = enricher.layer;
        status = status;
        subject = inspection_subject base;
        provenance = unavailable;
        evidence = [];
        findings = [];
        cause = some (record { code = code; retryable = retryable; details = details });
      }
      ∷ [];
}

abbrev pub is_completed : EnrichmentOutcome → Bool
is_completed o = elim o.status [
  | success ↦ true
  | no_hit ↦ true
  | skipped ↦ false
  | failure ↦ false
]

abbrev pub run_is_available : EnricherRun → Bool
run_is_available run = all is_completed run.report.outcomes

pub record RuntimeDegradation : Type 0 where
  pub status : EnrichmentStatus
  pub code : String
  pub retryable : Bool
  pub details : Option Payload

abbrev pub degradation_outcomes : Enricher → Base → List RuntimeDegradation → List EnrichmentOutcome
degradation_outcomes enricher base [] = []
degradation_outcomes enricher base (d ∷ ds) =
    (framework_report enricher base d.status d.code d.retryable d.details).outcomes
    ++ degradation_outcomes enricher base ds

unfoldable pub with_degradations :
    EnrichmentReport → Enricher → Base → List RuntimeDegradation → EnrichmentReport
with_degradations report enricher base degradations =
    if is_empty degradations
    then report
    else record { outcomes = report.outcomes ++ degradation_outcomes enricher base degradations }
