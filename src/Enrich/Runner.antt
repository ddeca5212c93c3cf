-- ===== src/Enrich/Runner.antt =====
-- packages/core/src/inspect-async.ts: `runEnricher`, the run of one enricher under the cache and
-- the governor. What the calls answer is an argument; `Promise.race` against the timeout and the
-- signal answers `timed_out` where one of them is first.
pub mod Validity
pub mod Reports
pub mod Calls
pub mod ReadBack
pub mod Writes
use linklint.Common.{
  Bool, List, Option, String, [], all, any, false, if◌then◌else◌, none, not, some, true, ℕ, ◌++◌,
  ◌∷◌,
}
use linklint.Governor.{GovernorDenialCause, TimeoutSetting, backoff_active, omitted, rate_limited}
use linklint.Enrich.{
  Base, Enricher, EnrichmentOutcome, EnrichmentReport, EnrichmentStatus, Payload,
  RuntimeDegradation, check_token, failure, framework_report, is_completed, no_hit, one_text,
  skipped, success, with_degradations,
}
use linklint.Enrich.Schema.{Output, normalize_cached_report, normalize_output}
use linklint.Enrich.Slots.{
  CacheSlot, KeyAnswer, TtlAnswer, because, cache_slot_for, cache_ttl_for, effective_timeout_ms,
  failed_with,
}

pub data Race (A : Type 0) : Type 0 where
  threw timed_out : Race A
  settled : A → Race A

pub data CacheRead : Type 0 where
  absent : CacheRead
  cached : Output → CacheRead

-- What `admit` does; a denial may leave its cause out.
pub data AdmitAnswer : Type 0 where
  admit_threw no_decision : AdmitAnswer
  deny : Option GovernorDenialCause → AdmitAnswer
  admit_with : TimeoutSetting → AdmitAnswer

pub data Written : Type 0 where
  written : Written

-- The answers, each used where the run makes the call, and the state of the caller's signal.
pub record Answers : Type 0 where
  pub aborted_at_start : Bool
  pub key : KeyAnswer
  pub read : Race CacheRead
  pub aborted_after_read : Bool
  pub admission : AdmitAnswer
  pub output : Race Output
  pub aborted_after_run : Bool
  pub record_throws : Bool
  pub ttl : TtlAnswer
  pub write : Race Written
  pub aborted_after_write : Bool

-- The calls that leave the runner.
pub data Call : Type 0 where
  read_cache : List String → Call
  admit_source : String → Call
  run_source : Option ℕ → Call
  report_success report_failure : String → Call
  write_cache : List String → EnrichmentReport → ℕ → Call

pub record Progress : Type 0 where
  pub calls : List Call
  pub degradations : List RuntimeDegradation

pub record Ran : Type 0 where
  pub report : EnrichmentReport
  pub calls : List Call

abbrev pub call : Call → Progress → Progress
call c p = record p { calls = p.calls ++ (c ∷ []) }

abbrev pub degrade : RuntimeDegradation → Progress → Progress
degrade d p = record p { degradations = p.degradations ++ (d ∷ []) }

abbrev pub degrade_by : Option RuntimeDegradation → Progress → Progress
degrade_by none p = p
degrade_by (some d) p = degrade d p

abbrev denial_code : Option GovernorDenialCause → String
denial_code none = "governor-denied"
denial_code (some rate_limited) = "rate-limited"
denial_code (some backoff_active) = "backoff-active"

module _ (enricher : Enricher) (base : Base) (has_governor : Bool) (answers : Answers) where
  abbrev pub plain : EnrichmentStatus → String → Bool → Option Payload → EnrichmentReport
  plain status code retryable details = framework_report enricher base status code retryable details

  abbrev pub finish : EnrichmentReport → Progress → Ran
  finish report p = record {
    report = with_degradations report enricher base p.degradations;
    calls = p.calls;
  }

  -- `addGovernorRecordDegradation`
  abbrev pub add_record : Call → String → Progress → Progress
  add_record c operation p =
      if not has_governor
      then p
      else if answers.record_throws
      then degrade
          (failed_with "governor-error" true (some (("operation", one_text operation) ∷ [])))
          (call c p)
      else call c p

  abbrev pub add_failure : Progress → Progress
  add_failure p = add_record (report_failure (check_token enricher)) "recordFailure" p

  abbrev pub add_success : Progress → Progress
  add_success p = add_record (report_success (check_token enricher)) "recordSuccess" p

  abbrev pub at_write : Race Written → Progress → Progress
  at_write (settled w) p = p
  at_write threw p = degrade (failed_with "cache-write-error" true none) p
  at_write timed_out p =
      degrade
        (failed_with "cache-write-error" true
          (because (if answers.aborted_after_write then "caller-aborted" else "timeout")))
        p

  abbrev pub write_for : CacheSlot → EnrichmentReport → Option ℕ → Progress → Progress
  write_for slot report none p = p
  write_for slot report (some ttl) p =
      at_write answers.write (call (write_cache slot.key report ttl) p)

  abbrev pub write_slot : Option CacheSlot → EnrichmentReport → Progress → Progress
  write_slot none report p = p
  write_slot (some slot) report p =
      if all is_completed report.outcomes
      then (let ttl = cache_ttl_for enricher slot.static_ttl_ms answers.ttl in
          write_for slot report ttl.ttl_ms (degrade_by ttl.degradation p))
      else p

  abbrev pub has_failed : EnrichmentOutcome → Bool
  has_failed o = elim o.status [
    | failure ↦ true
    | success ↦ false
    | no_hit ↦ false
    | skipped ↦ false
  ]

  abbrev pub record_report : EnrichmentReport → Progress → Progress
  record_report report p = if any has_failed report.outcomes then add_failure p else add_success p

  abbrev pub at_report : Option CacheSlot → Option EnrichmentReport → Progress → Ran
  at_report slot none p = finish (plain failure "invalid-output" false none) (add_failure p)
  at_report slot (some report) p = finish report (write_slot slot report (record_report report p))

  abbrev pub stopped : String → Bool → EnrichmentReport
  stopped code retryable =
      if answers.aborted_after_run
      then plain skipped "caller-aborted" false none
      else plain failure code retryable none

  abbrev pub at_output : Option CacheSlot → Race Output → Progress → Ran
  at_output slot threw p = finish (stopped "source-error" true) (add_failure p)
  at_output slot timed_out p = finish (stopped "timeout" true) (add_failure p)
  at_output slot (settled output) p =
      if answers.aborted_after_run
      then finish (plain skipped "caller-aborted" false none) (add_failure p)
      else at_report slot (normalize_output output enricher base) p

  abbrev pub run_with : Option CacheSlot → TimeoutSetting → Progress → Ran
  run_with slot governor_timeout p =
      at_output slot answers.output
        (call (run_source (effective_timeout_ms enricher.timeout_ms governor_timeout)) p)

  abbrev pub at_admission : Option CacheSlot → AdmitAnswer → Progress → Ran
  at_admission slot admit_threw p =
      finish (plain failure "governor-error" true (some (("operation", one_text "admit") ∷ []))) p
  at_admission slot no_decision p =
      finish
        (plain failure "governor-error" true
          (some (("operation", one_text "admit") ∷ ("reason", one_text "invalid-decision") ∷ [])))
        p
  at_admission slot (deny cause) p = finish (plain skipped (denial_code cause) true none) p
  at_admission slot (admit_with timeout) p = run_with slot timeout p

  abbrev pub govern_by : Bool → Option CacheSlot → Progress → Ran
  govern_by true slot p =
      at_admission slot answers.admission (call (admit_source (check_token enricher)) p)
  govern_by false slot p = run_with slot omitted p

  abbrev pub govern : Option CacheSlot → Progress → Ran
  govern slot p = govern_by has_governor slot p

  abbrev pub or_invalid : Option EnrichmentReport → EnrichmentReport
  or_invalid none = plain failure "invalid-cached-output" false none
  or_invalid (some report) = report

  abbrev pub at_cached : Option CacheSlot → CacheRead → Progress → Ran
  at_cached slot absent p = govern slot p
  at_cached slot (cached value) p = finish (or_invalid (normalize_cached_report value enricher)) p

  abbrev pub at_read : Option CacheSlot → Race CacheRead → Progress → Ran
  at_read slot (settled value) p = at_cached slot value p
  at_read slot threw p = govern slot (degrade (failed_with "cache-read-error" true none) p)
  at_read slot timed_out p =
      if answers.aborted_after_read
      then record { report = plain skipped "caller-aborted" false none; calls = p.calls }
      else govern slot (degrade (failed_with "cache-read-error" true (because "timeout")) p)

  abbrev pub at_slot : Option CacheSlot → Progress → Ran
  at_slot none p = govern none p
  at_slot (some slot) p = at_read (some slot) answers.read (call (read_cache slot.key) p)

  abbrev pub fresh_progress : Progress
  fresh_progress = record { calls = []; degradations = [] }

  unfoldable pub run_enricher : Bool → Ran
  run_enricher has_cache =
      let resolved = cache_slot_for enricher base answers.key in
      if answers.aborted_at_start
      then record { report = plain skipped "caller-aborted" false none; calls = [] }
      else if has_cache
      then at_slot resolved.slot (degrade_by resolved.degradation fresh_progress)
      else at_slot none fresh_progress
