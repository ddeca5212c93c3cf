-- ===== src/Enrich/Runner/Reports.antt =====
-- What the run of an enricher reports (packages/core/src/inspect-async.ts).
use linklint.Common.{
  Bool, Bool-cases, Option, String, [], all, any, false, if◌then◌else◌, inl, inr, none, refl, some,
  true, ℕ, ◌∷◌, ◌≡◌,
}
use linklint.Enrich.{
  Base, Enricher, EnrichmentReport, check_token, failure, framework_report, is_completed, one_text,
  skipped,
}
use linklint.Enrich.Schema.{Output, normalize_cached_report, normalize_output}
use linklint.Enrich.Runner.Validity.{
  AreFailures, AreFailures-degrade, AreFailures-degrade_by, IsReport, cache_slot_for-OnDegradation,
  cache_ttl_for-OnDegradation, framework_report-failure, framework_report-skipped,
  normalize_cached_report-IsReport, normalize_output-IsReport, with_degradations-IsReport,
}
use linklint.Enrich.Runner.{
  AdmitAnswer, Answers, CacheRead, Call, Progress, Race, Written, absent, add_failure, add_record,
  admit_source, admit_threw, admit_with, at_admission, at_cached, at_output, at_read, at_report,
  at_slot, at_write, cached, call, degrade, degrade_by, denial_code, deny, finish, govern_by,
  has_failed, no_decision, or_invalid, read_cache, record_report, report_failure, report_success,
  run_enricher, run_source, settled, stopped, threw, timed_out, write_cache, write_for, write_slot,
}
use linklint.Enrich.Slots.{
  CacheSlot, because, cache_slot_for, cache_ttl_for, effective_timeout_ms, failed_with,
}
use linklint.Governor.{omitted}

module _ (enricher : Enricher) (base : Base) (has_governor : Bool) (answers : Answers) where
  finish-IsReport :
      (r : EnrichmentReport) (p : Progress)
      → IsReport enricher base r
      → AreFailures p
      → IsReport enricher base (finish enricher base has_governor answers r p).report
  finish-IsReport r p h f = with_degradations-IsReport enricher base r p.degradations h f

  add_record-AreFailures :
      (c : Call) (operation : String) (p : Progress)
      → AreFailures p
      → AreFailures (add_record enricher base has_governor answers c operation p)
  add_record-AreFailures c operation p f = elim (Bool-cases has_governor) [
    | inr without ↦ rw without f
    | inl governed ↦ elim (Bool-cases answers.record_throws) [
      | inr recorded ↦ rw (governed, recorded) f
      | inl thrown ↦
          rw (governed, thrown)
            (AreFailures-degrade
              (failed_with "governor-error" true (some (("operation", one_text operation) ∷ [])))
              (call c p) refl f)
    ]
  ]

  at_write-AreFailures :
      (w : Race Written) (p : Progress)
      → AreFailures p
      → AreFailures (at_write enricher base has_governor answers w p)
  at_write-AreFailures (settled w) p f = f
  at_write-AreFailures threw p f =
      AreFailures-degrade (failed_with "cache-write-error" true none) p refl f
  at_write-AreFailures timed_out p f =
      AreFailures-degrade
        (failed_with "cache-write-error" true
          (because (if answers.aborted_after_write then "caller-aborted" else "timeout")))
        p refl f

  write_for-AreFailures :
      (slot : CacheSlot) (r : EnrichmentReport) (o : Option ℕ) (p : Progress)
      → AreFailures p
      → AreFailures (write_for enricher base has_governor answers slot r o p)
  write_for-AreFailures slot r none p f = f
  write_for-AreFailures slot r (some ttl) p f =
      at_write-AreFailures answers.write (call (write_cache slot.key r ttl) p) f

  write_slot-AreFailures :
      (o : Option CacheSlot) (r : EnrichmentReport) (p : Progress)
      → AreFailures p
      → AreFailures (write_slot enricher base has_governor answers o r p)
  write_slot-AreFailures none r p f = f
  write_slot-AreFailures (some slot) r p f =
      let ttl = cache_ttl_for enricher slot.static_ttl_ms answers.ttl in
      elim (Bool-cases (all is_completed r.outcomes)) [
        | inl whole ↦ rw whole (
            write_for-AreFailures slot r ttl.ttl_ms (degrade_by ttl.degradation p) (
              AreFailures-degrade_by ttl.degradation p
                (cache_ttl_for-OnDegradation enricher slot.static_ttl_ms answers.ttl) f))
        | inr partial ↦ rw partial f
      ]

  record_report-AreFailures :
      (r : EnrichmentReport) (p : Progress)
      → AreFailures p
      → AreFailures (record_report enricher base has_governor answers r p)
  record_report-AreFailures r p f =
      let token = check_token enricher in
      elim (Bool-cases (any (has_failed enricher base has_governor answers) r.outcomes)) [
        | inl bad ↦ rw bad (add_record-AreFailures (report_failure token) "recordFailure" p f)
        | inr good ↦ rw good (add_record-AreFailures (report_success token) "recordSuccess" p f)
      ]

  stopped-IsReport :
      (code : String) (retryable : Bool)
      → IsReport enricher base (stopped enricher base has_governor answers code retryable)
  stopped-IsReport code retryable = elim (Bool-cases answers.aborted_after_run) [
    | inl aborted ↦ rw aborted (framework_report-skipped enricher base "caller-aborted" false none)
    | inr going ↦ rw going (framework_report-failure enricher base code retryable none)
  ]

  abbrev failing : Progress → Progress
  failing p = add_failure enricher base has_governor answers p

  failing-AreFailures : (p : Progress) → AreFailures p → AreFailures (failing p)
  failing-AreFailures p f =
      add_record-AreFailures (report_failure (check_token enricher)) "recordFailure" p f

  at_report-IsReport :
      (slot : Option CacheSlot) (o : Option EnrichmentReport) (p : Progress)
      → ((r : EnrichmentReport) → o ≡ some r → IsReport enricher base r)
      → AreFailures p
      → IsReport enricher base (at_report enricher base has_governor answers slot o p).report
  at_report-IsReport slot none p h f =
      finish-IsReport (framework_report enricher base failure "invalid-output" false none)
        (failing p) (framework_report-failure enricher base "invalid-output" false none)
        (failing-AreFailures p f)
  at_report-IsReport slot (some r) p h f =
      let recorded = record_report enricher base has_governor answers r p in
      finish-IsReport r (write_slot enricher base has_governor answers slot r recorded) (h r refl)
        (write_slot-AreFailures slot r recorded (record_report-AreFailures r p f))

  at_output-IsReport :
      (slot : Option CacheSlot) (o : Race Output) (p : Progress)
      → AreFailures p
      → IsReport enricher base (at_output enricher base has_governor answers slot o p).report
  at_output-IsReport slot threw p f =
      finish-IsReport (stopped enricher base has_governor answers "source-error" true) (failing p)
        (stopped-IsReport "source-error" true) (failing-AreFailures p f)
  at_output-IsReport slot timed_out p f =
      finish-IsReport (stopped enricher base has_governor answers "timeout" true) (failing p)
        (stopped-IsReport "timeout" true) (failing-AreFailures p f)
  at_output-IsReport slot (settled o) p f = elim (Bool-cases answers.aborted_after_run) [
    | inl aborted ↦ rw aborted (
        finish-IsReport (framework_report enricher base skipped "caller-aborted" false none)
          (failing p) (framework_report-skipped enricher base "caller-aborted" false none)
          (failing-AreFailures p f))
    | inr going ↦ rw going (
        at_report-IsReport slot (normalize_output o enricher base) p
          (normalize_output-IsReport enricher base o) f)
  ]

  at_admission-IsReport :
      (slot : Option CacheSlot) (a : AdmitAnswer) (p : Progress)
      → AreFailures p
      → IsReport enricher base (at_admission enricher base has_governor answers slot a p).report
  at_admission-IsReport slot admit_threw p f =
      let details = some (("operation", one_text "admit") ∷ []) in
      finish-IsReport (framework_report enricher base failure "governor-error" true details) p
        (framework_report-failure enricher base "governor-error" true details) f
  at_admission-IsReport slot no_decision p f =
      let details =
        some (("operation", one_text "admit") ∷ ("reason", one_text "invalid-decision") ∷ []) in
      finish-IsReport (framework_report enricher base failure "governor-error" true details) p
        (framework_report-failure enricher base "governor-error" true details) f
  at_admission-IsReport slot (deny cause) p f =
      finish-IsReport (framework_report enricher base skipped (denial_code cause) true none) p
        (framework_report-skipped enricher base (denial_code cause) true none) f
  at_admission-IsReport slot (admit_with timeout) p f =
      at_output-IsReport slot answers.output
        (call (run_source (effective_timeout_ms enricher.timeout_ms timeout)) p) f

  govern_by-IsReport :
      (governed : Bool) (slot : Option CacheSlot) (p : Progress)
      → AreFailures p
      → IsReport enricher base (govern_by enricher base has_governor answers governed slot p).report
  govern_by-IsReport true slot p f =
      at_admission-IsReport slot answers.admission (call (admit_source (check_token enricher)) p) f
  govern_by-IsReport false slot p f =
      at_output-IsReport slot answers.output
        (call (run_source (effective_timeout_ms enricher.timeout_ms omitted)) p) f

  or_invalid-IsReport :
      (o : Option EnrichmentReport)
      → ((r : EnrichmentReport) → o ≡ some r → IsReport enricher base r)
      → IsReport enricher base (or_invalid enricher base has_governor answers o)
  or_invalid-IsReport none h =
      framework_report-failure enricher base "invalid-cached-output" false none
  or_invalid-IsReport (some r) h = h r refl

  at_cached-IsReport :
      (slot : Option CacheSlot) (value : CacheRead) (p : Progress)
      → AreFailures p
      → IsReport enricher base (at_cached enricher base has_governor answers slot value p).report
  at_cached-IsReport slot absent p f = govern_by-IsReport has_governor slot p f
  at_cached-IsReport slot (cached value) p f =
      finish-IsReport
        (or_invalid enricher base has_governor answers (normalize_cached_report value enricher)) p
        (or_invalid-IsReport (normalize_cached_report value enricher)
          (normalize_cached_report-IsReport enricher base value))
        f

  at_read-IsReport :
      (slot : Option CacheSlot) (value : Race CacheRead) (p : Progress)
      → AreFailures p
      → IsReport enricher base (at_read enricher base has_governor answers slot value p).report
  at_read-IsReport slot (settled value) p f = at_cached-IsReport slot value p f
  at_read-IsReport slot threw p f =
      let d = failed_with "cache-read-error" true none in
      govern_by-IsReport has_governor slot (degrade d p) (AreFailures-degrade d p refl f)
  at_read-IsReport slot timed_out p f =
      let d = failed_with "cache-read-error" true (because "timeout") in
      elim (Bool-cases answers.aborted_after_read) [
        | inl aborted ↦
            rw aborted (framework_report-skipped enricher base "caller-aborted" false none)
        | inr going ↦
            rw going
              (govern_by-IsReport has_governor slot (degrade d p) (AreFailures-degrade d p refl f))
      ]

  at_slot-IsReport :
      (slot : Option CacheSlot) (p : Progress)
      → AreFailures p
      → IsReport enricher base (at_slot enricher base has_governor answers slot p).report
  at_slot-IsReport none p f = govern_by-IsReport has_governor none p f
  at_slot-IsReport (some slot) p f =
      at_read-IsReport (some slot) answers.read (call (read_cache slot.key) p) f

-- Whatever an enricher, the cache and the governor do, throw, time out or answer nonsense, the run
-- ends in a report that fits the enricher: it has an outcome, every outcome carries the enricher's
-- id and layer, and only completed outcomes are without a cause.
pub run_enricher-IsReport :
    (enricher : Enricher) (base : Base) (has_governor has_cache : Bool) (answers : Answers)
    → IsReport enricher base (run_enricher enricher base has_governor answers has_cache).report
unfolding run_enricher
run_enricher-IsReport enricher base has_governor has_cache answers =
    let resolved = cache_slot_for enricher base answers.key in
    let started : Progress = record { calls = []; degradations = [] } in
    elim (Bool-cases answers.aborted_at_start) [
      | inl aborted ↦
          rw aborted (framework_report-skipped enricher base "caller-aborted" false none)
      | inr going ↦ rw going (elim (Bool-cases has_cache) [
        | inl cache ↦ rw cache (
            at_slot-IsReport enricher base has_governor answers resolved.slot
              (degrade_by resolved.degradation started)
              (AreFailures-degrade_by resolved.degradation started
                (cache_slot_for-OnDegradation enricher base answers.key) tt))
        | inr uncached ↦
            rw uncached (at_slot-IsReport enricher base has_governor answers none started tt)
      ])
    ]
