-- ===== src/Enrich/Runner/Writes.antt =====
-- What the run of an enricher writes to the cache (packages/core/src/inspect-async.ts).
use linklint.Common.{
  All, All-append, Bool, Bool-cases, Option, String, [], all, any, false, inl, inr, none, refl,
  some, true, ℕ, ◌∷◌, ◌≡◌,
}
use linklint.Enrich.{
  Base, Enricher, EnrichmentReport, RuntimeDegradation, check_token, is_completed,
}
use linklint.Enrich.Schema.{Output, normalize_output}
use linklint.Enrich.Runner.ReadBack.{IsReadBack, normalize_output-IsReadBack}
use linklint.Governor.{TimeoutSetting, omitted}
use linklint.Enrich.Slots.{
  CacheSlot, because, cache_slot_for, cache_ttl_for, effective_timeout_ms, failed_with,
}
use linklint.Enrich.Runner.{
  AdmitAnswer, Answers, CacheRead, Call, Progress, Race, Written, absent, add_failure, add_record,
  admit_source, admit_threw, admit_with, at_admission, at_output, at_read, at_report, at_slot,
  at_write, cached, call, degrade, degrade_by, deny, govern_by, has_failed, no_decision, read_cache,
  record_report, report_failure, report_success, run_enricher, run_source, run_with, settled, threw,
  timed_out, write_cache, write_for, write_slot,
}

module _ (enricher : Enricher) (base : Base) where
  -- A report that may be written: every outcome is complete, and it can be read back.
  abbrev pub IsWritable : Call → Type 0
  IsWritable (write_cache key r ttl) =
      (all is_completed r.outcomes ≡ true) × IsReadBack enricher base r
  IsWritable _ = Unit {0}

  abbrev AreWritable : Progress → Type 0
  AreWritable p = All IsWritable p.calls

  AreWritable-call :
      (c : Call) (p : Progress) → IsWritable c → AreWritable p → AreWritable (call c p)
  AreWritable-call c p w h = All-append IsWritable p.calls (c ∷ []) h (w, tt)

  AreWritable-degrade_by :
      (o : Option RuntimeDegradation) (p : Progress) → AreWritable p → AreWritable (degrade_by o p)
  AreWritable-degrade_by none p h = h
  AreWritable-degrade_by (some d) p h = h

module _ (enricher : Enricher) (base : Base) (has_governor : Bool) (answers : Answers) where
  add_record-AreWritable :
      (c : Call) (operation : String) (p : Progress)
      → IsWritable enricher base c
      → AreWritable enricher base p
      → AreWritable enricher base (add_record enricher base has_governor answers c operation p)
  add_record-AreWritable c operation p w h = elim (Bool-cases has_governor) [
    | inr without ↦ rw without h
    | inl governed ↦ elim (Bool-cases answers.record_throws) [
      | inr recorded ↦ rw (governed, recorded) (AreWritable-call enricher base c p w h)
      | inl thrown ↦ rw (governed, thrown) (AreWritable-call enricher base c p w h)
    ]
  ]

  at_write-AreWritable :
      (w : Race Written) (p : Progress)
      → AreWritable enricher base p
      → AreWritable enricher base (at_write enricher base has_governor answers w p)
  at_write-AreWritable (settled w) p h = h
  at_write-AreWritable threw p h = h
  at_write-AreWritable timed_out p h = h

  write_for-AreWritable :
      (slot : CacheSlot) (r : EnrichmentReport) (o : Option ℕ) (p : Progress)
      → (all is_completed r.outcomes ≡ true) × IsReadBack enricher base r
      → AreWritable enricher base p
      → AreWritable enricher base (write_for enricher base has_governor answers slot r o p)
  write_for-AreWritable slot r none p w h = h
  write_for-AreWritable slot r (some ttl) p w h =
      at_write-AreWritable answers.write (call (write_cache slot.key r ttl) p)
        (AreWritable-call enricher base (write_cache slot.key r ttl) p w h)

  write_slot-AreWritable :
      (o : Option CacheSlot) (r : EnrichmentReport) (p : Progress)
      → IsReadBack enricher base r
      → AreWritable enricher base p
      → AreWritable enricher base (write_slot enricher base has_governor answers o r p)
  write_slot-AreWritable none r p b h = h
  write_slot-AreWritable (some slot) r p b h =
      let ttl = cache_ttl_for enricher slot.static_ttl_ms answers.ttl in
      elim (Bool-cases (all is_completed r.outcomes)) [
        | inr partial ↦ rw partial h
        | inl whole ↦ rw whole (
            write_for-AreWritable slot r ttl.ttl_ms (degrade_by ttl.degradation p) (whole, b)
              (AreWritable-degrade_by enricher base ttl.degradation p h))
      ]

  failed-AreWritable :
      (p : Progress)
      → AreWritable enricher base p
      → AreWritable enricher base (add_failure enricher base has_governor answers p)
  failed-AreWritable p h =
      add_record-AreWritable (report_failure (check_token enricher)) "recordFailure" p tt h

  record_report-AreWritable :
      (r : EnrichmentReport) (p : Progress)
      → AreWritable enricher base p
      → AreWritable enricher base (record_report enricher base has_governor answers r p)
  record_report-AreWritable r p h =
      elim (Bool-cases (any (has_failed enricher base has_governor answers) r.outcomes)) [
        | inl bad ↦ rw bad (failed-AreWritable p h)
        | inr good ↦
            rw good (
              add_record-AreWritable (report_success (check_token enricher)) "recordSuccess" p tt h)
      ]

  at_report-AreWritable :
      (slot : Option CacheSlot) (o : Option EnrichmentReport) (p : Progress)
      → ((r : EnrichmentReport) → o ≡ some r → IsReadBack enricher base r)
      → AreWritable enricher base p
      → All (IsWritable enricher base) (at_report enricher base has_governor answers slot o p).calls
  at_report-AreWritable slot none p b h = failed-AreWritable p h
  at_report-AreWritable slot (some r) p b h =
      write_slot-AreWritable slot r (record_report enricher base has_governor answers r p)
        (b r refl) (record_report-AreWritable r p h)

  at_output-AreWritable :
      (slot : Option CacheSlot) (o : Race Output) (p : Progress)
      → AreWritable enricher base p
      → All (IsWritable enricher base) (at_output enricher base has_governor answers slot o p).calls
  at_output-AreWritable slot threw p h = failed-AreWritable p h
  at_output-AreWritable slot timed_out p h = failed-AreWritable p h
  at_output-AreWritable slot (settled o) p h = elim (Bool-cases answers.aborted_after_run) [
    | inl aborted ↦ rw aborted (failed-AreWritable p h)
    | inr going ↦ rw going (
        at_report-AreWritable slot (normalize_output o enricher base) p
          (normalize_output-IsReadBack enricher base o) h)
  ]

  run_with-AreWritable :
      (slot : Option CacheSlot) (t : TimeoutSetting) (p : Progress)
      → AreWritable enricher base p
      → All (IsWritable enricher base) (run_with enricher base has_governor answers slot t p).calls
  run_with-AreWritable slot t p h =
      let c = run_source (effective_timeout_ms enricher.timeout_ms t) in
      at_output-AreWritable slot answers.output (call c p) (AreWritable-call enricher base c p tt h)

  at_admission-AreWritable :
      (slot : Option CacheSlot) (a : AdmitAnswer) (p : Progress)
      → AreWritable enricher base p
      → All
          (IsWritable enricher base)
          (at_admission enricher base has_governor answers slot a p).calls
  at_admission-AreWritable slot admit_threw p h = h
  at_admission-AreWritable slot no_decision p h = h
  at_admission-AreWritable slot (deny cause) p h = h
  at_admission-AreWritable slot (admit_with t) p h = run_with-AreWritable slot t p h

  govern_by-AreWritable :
      (governor : Bool) (slot : Option CacheSlot) (p : Progress)
      → AreWritable enricher base p
      → All
          (IsWritable enricher base)
          (govern_by enricher base has_governor answers governor slot p).calls
  govern_by-AreWritable false slot p h = run_with-AreWritable slot omitted p h
  govern_by-AreWritable true slot p h =
      let c = admit_source (check_token enricher) in
      at_admission-AreWritable slot answers.admission (call c p)
        (AreWritable-call enricher base c p tt h)

  at_read-AreWritable :
      (slot : Option CacheSlot) (value : Race CacheRead) (p : Progress)
      → AreWritable enricher base p
      → All
          (IsWritable enricher base)
          (at_read enricher base has_governor answers slot value p).calls
  at_read-AreWritable slot (settled absent) p h = govern_by-AreWritable has_governor slot p h
  at_read-AreWritable slot (settled (cached value)) p h = h
  at_read-AreWritable slot threw p h =
      govern_by-AreWritable has_governor slot (degrade (failed_with "cache-read-error" true none) p)
        h
  at_read-AreWritable slot timed_out p h = elim (Bool-cases answers.aborted_after_read) [
    | inl aborted ↦ rw aborted h
    | inr going ↦ rw going (
        govern_by-AreWritable has_governor slot
          (degrade (failed_with "cache-read-error" true (because "timeout")) p) h)
  ]

  at_slot-AreWritable :
      (slot : Option CacheSlot) (p : Progress)
      → AreWritable enricher base p
      → All (IsWritable enricher base) (at_slot enricher base has_governor answers slot p).calls
  at_slot-AreWritable none p h = govern_by-AreWritable has_governor none p h
  at_slot-AreWritable (some slot) p h =
      at_read-AreWritable (some slot) answers.read (call (read_cache slot.key) p)
        (AreWritable-call enricher base (read_cache slot.key) p tt h)

-- What a run writes to the cache is a report whose outcomes all completed, and reading it back later
-- for the same enricher gives that report where the enricher's id is not blank and its layer is one
-- of enrichment, and is refused otherwise: nothing that failed or was skipped is ever cached.
pub run_enricher-IsWritable :
    (enricher : Enricher) (base : Base) (has_governor has_cache : Bool) (answers : Answers)
    → All
        (IsWritable enricher base)
        (run_enricher enricher base has_governor answers has_cache).calls
unfolding run_enricher
run_enricher-IsWritable enricher base has_governor has_cache answers =
    let resolved = cache_slot_for enricher base answers.key in
    let started : Progress = record { calls = []; degradations = [] } in
    elim (Bool-cases answers.aborted_at_start) [
      | inl aborted ↦ rw aborted tt
      | inr going ↦ rw going (elim (Bool-cases has_cache) [
        | inl cache ↦ rw cache (
            at_slot-AreWritable enricher base has_governor answers resolved.slot
              (degrade_by resolved.degradation started)
              (AreWritable-degrade_by enricher base resolved.degradation started tt))
        | inr uncached ↦
            rw uncached (at_slot-AreWritable enricher base has_governor answers none started tt)
      ])
    ]
