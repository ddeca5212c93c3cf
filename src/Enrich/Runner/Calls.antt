-- ===== src/Enrich/Runner/Calls.antt =====
-- The calls that the run of an enricher makes (packages/core/src/inspect-async.ts).
use linklint.Common.{
  Bool, Bool-cases, List, Option, String, [], all, any, ap, arith, false, if◌then◌else◌, inl, inr,
  none, refl, some, true, ℕ, ◌++◌, ◌+◌, ◌∙◌, ◌∷◌, ◌≡◌, ◌≤◌, ◌⊎◌,
}
use linklint.Enrich.{
  Base, Enricher, EnrichmentReport, RuntimeDegradation, check_token, is_completed,
}
use linklint.Enrich.Slots.{
  CacheSlot, because, cache_slot_for, cache_ttl_for, effective_timeout_ms, failed_with,
}
use linklint.Enrich.Runner.{
  AdmitAnswer, Answers, CacheRead, Call, Progress, Race, Written, absent, add_failure, add_record,
  admit_source, admit_threw, admit_with, at_admission, at_output, at_read, at_report, at_slot,
  at_write, cached, call, degrade, degrade_by, deny, govern_by, has_failed, no_decision, read_cache,
  record_report, report_failure, report_success, run_enricher, run_source, run_with, settled, threw,
  timed_out, write_cache, write_for, write_slot,
}
use linklint.Governor.{TimeoutSetting, omitted}
use linklint.Enrich.Schema.{Output, normalize_output}

-- Whether a call runs the source, and whether it tells the governor of a run.
abbrev pub runs_source : Call → ℕ
runs_source (run_source timeout) = 1
runs_source _ = 0

abbrev pub records_run : Call → ℕ
records_run (report_success token) = 1
records_run (report_failure token) = 1
records_run _ = 0

abbrev pub total : (Call → ℕ) → List Call → ℕ
total f [] = 0
total f (c ∷ cs) = f c + total f cs

total-call :
    (f : Call → ℕ) (c : Call) (cs : List Call) → total f (cs ++ (c ∷ [])) ≡ total f cs + f c
total-call f c [] = omega arith
total-call f c (d ∷ ds) = omega (arith, total-call f c ds)

-- Whether the governor lets the source run.
abbrev pub grants : AdmitAnswer → ℕ
grants (admit_with timeout) = 1
grants _ = 0

fair_from :
    (governor : Bool) (granted runs records : ℕ)
    → (granted ≡ 1) ⊎ (governor ≡ false)
    → runs ≡ 1
    → records ≡ (if governor then 1 else 0)
    → (runs ≤ (if governor then granted else 1)) × (records ≡ (if governor then runs else 0))
fair_from governor granted runs records g r k = ground arith

module _ (enricher : Enricher) (base : Base) (has_governor : Bool) (answers : Answers) where
  abbrev governed : ℕ
  governed = if has_governor then 1 else 0

  add_record-runs :
      (c : Call) (operation : String) (p : Progress)
      → runs_source c ≡ 0
      → total runs_source (add_record enricher base has_governor answers c operation p).calls
        ≡ total runs_source p.calls
  add_record-runs c operation p z = ground (arith, total-call runs_source c p.calls)

  add_record-records :
      (c : Call) (operation : String) (p : Progress)
      → records_run c ≡ 1
      → total records_run (add_record enricher base has_governor answers c operation p).calls
        ≡ total records_run p.calls + governed
  add_record-records c operation p z = ground (arith, total-call records_run c p.calls)

  -- A write to the cache counts neither way.
  at_write-calls :
      (w : Race Written) (p : Progress)
      → (at_write enricher base has_governor answers w p).calls ≡ p.calls
  at_write-calls (settled w) p = refl
  at_write-calls threw p = refl
  at_write-calls timed_out p = refl

  degrade_by-calls :
      (o : Option RuntimeDegradation) (p : Progress) → (degrade_by o p).calls ≡ p.calls
  degrade_by-calls none p = refl
  degrade_by-calls (some d) p = refl

  write_for-total :
      (f : Call → ℕ) (slot : CacheSlot) (r : EnrichmentReport) (o : Option ℕ) (p : Progress)
      → ((key : List String) (s : EnrichmentReport) (ttl : ℕ) → f (write_cache key s ttl) ≡ 0)
      → total f (write_for enricher base has_governor answers slot r o p).calls ≡ total f p.calls
  write_for-total f slot r none p z = refl
  write_for-total f slot r (some ttl) p z =
      ap (total f) (at_write-calls answers.write (call (write_cache slot.key r ttl) p))
      ∙ omega (arith, total-call f (write_cache slot.key r ttl) p.calls, z slot.key r ttl)

  write_slot-total :
      (f : Call → ℕ) (slot : Option CacheSlot) (r : EnrichmentReport) (p : Progress)
      → ((key : List String) (s : EnrichmentReport) (ttl : ℕ) → f (write_cache key s ttl) ≡ 0)
      → total f (write_slot enricher base has_governor answers slot r p).calls ≡ total f p.calls
  write_slot-total f none r p z = refl
  write_slot-total f (some slot) r p z =
      let ttl = cache_ttl_for enricher slot.static_ttl_ms answers.ttl in
      elim (Bool-cases (all is_completed r.outcomes)) [
        | inl whole ↦
            rw whole (write_for-total f slot r ttl.ttl_ms (degrade_by ttl.degradation p) z)
            ∙ ap (total f) (degrade_by-calls ttl.degradation p)
        | inr partial ↦ rw partial
      ]

  -- The governor, where there is one, is told once; the source is not run again.
  abbrev IsTold : List Call → List Call → Type 0
  IsTold before after =
      (total runs_source after ≡ total runs_source before)
      × (total records_run after ≡ total records_run before + governed)

  add_failure-IsTold :
      (p : Progress) → IsTold p.calls (add_failure enricher base has_governor answers p).calls
  add_failure-IsTold p =
      let c = report_failure (check_token enricher) in
      (add_record-runs c "recordFailure" p refl, add_record-records c "recordFailure" p refl)

  record_report-IsTold :
      (r : EnrichmentReport) (p : Progress)
      → IsTold p.calls (record_report enricher base has_governor answers r p).calls
  record_report-IsTold r p =
      let c = report_success (check_token enricher) in
      elim (Bool-cases (any (has_failed enricher base has_governor answers) r.outcomes)) [
        | inl bad ↦ rw bad (add_failure-IsTold p)
        | inr good ↦
            rw good (
              add_record-runs c "recordSuccess" p refl,
              add_record-records c "recordSuccess" p refl,
            )
      ]

  at_report-IsTold :
      (slot : Option CacheSlot) (o : Option EnrichmentReport) (p : Progress)
      → IsTold p.calls (at_report enricher base has_governor answers slot o p).calls
  at_report-IsTold slot none p = add_failure-IsTold p
  at_report-IsTold slot (some r) p =
      let recorded = record_report enricher base has_governor answers r p in
      let told = record_report-IsTold r p in
      let runs = write_slot-total runs_source slot r recorded (λ k s t. refl) in
      let records = write_slot-total records_run slot r recorded (λ k s t. refl) in
      (runs ∙ told.0, records ∙ told.1)

  at_output-IsTold :
      (slot : Option CacheSlot) (o : Race Output) (p : Progress)
      → IsTold p.calls (at_output enricher base has_governor answers slot o p).calls
  at_output-IsTold slot threw p = add_failure-IsTold p
  at_output-IsTold slot timed_out p = add_failure-IsTold p
  at_output-IsTold slot (settled o) p = elim (Bool-cases answers.aborted_after_run) [
    | inl aborted ↦ rw aborted (add_failure-IsTold p)
    | inr going ↦ rw going (at_report-IsTold slot (normalize_output o enricher base) p)
  ]

  -- The source runs at most once, only where the governor grants it, and the governor is told of
  -- each run.
  abbrev pub IsFair : Bool → List Call → Type 0
  IsFair governor calls =
      (total runs_source calls ≤ (if governor then grants answers.admission else 1))
      × (total records_run calls ≡ (if governor then total runs_source calls else 0))

  abbrev IsQuiet : Progress → Type 0
  IsQuiet p = (total runs_source p.calls ≡ 0) × (total records_run p.calls ≡ 0)

  run_with-IsFair :
      (slot : Option CacheSlot) (t : TimeoutSetting) (p : Progress)
      → IsQuiet p
      → grants answers.admission ≡ 1 ⊎ has_governor ≡ false
      → IsFair has_governor (run_with enricher base has_governor answers slot t p).calls
  run_with-IsFair slot t p q g =
      let c = run_source (effective_timeout_ms enricher.timeout_ms t) in
      let told = at_output-IsTold slot answers.output (call c p) in
      let runs = total-call runs_source c p.calls in
      let records = total-call records_run c p.calls in
      let ran = at_output enricher base has_governor answers slot answers.output (call c p) in
      fair_from has_governor (grants answers.admission) (total runs_source ran.calls)
        (total records_run ran.calls) g (omega (arith, told.0, runs, q.0))
        (omega (arith, told.1, records, q.1))

  -- Where the source does not run.
  quiet-IsFair : (p : Progress) → IsQuiet p → IsFair has_governor p.calls
  quiet-IsFair p q = ground (arith, q.0, q.1)

  at_admission-IsFair :
      (slot : Option CacheSlot) (a : AdmitAnswer) (p : Progress)
      → answers.admission ≡ a
      → IsQuiet p
      → IsFair has_governor (at_admission enricher base has_governor answers slot a p).calls
  at_admission-IsFair slot admit_threw p e q = quiet-IsFair p q
  at_admission-IsFair slot no_decision p e q = quiet-IsFair p q
  at_admission-IsFair slot (deny cause) p e q = quiet-IsFair p q
  at_admission-IsFair slot (admit_with t) p e q = run_with-IsFair slot t p q (inl (rw e))

  govern_by-IsFair :
      (governor : Bool) (slot : Option CacheSlot) (p : Progress)
      → has_governor ≡ governor
      → IsQuiet p
      → IsFair has_governor (govern_by enricher base has_governor answers governor slot p).calls
  govern_by-IsFair true slot p e q =
      let c = admit_source (check_token enricher) in
      let runs = total-call runs_source c p.calls in
      let records = total-call records_run c p.calls in
      at_admission-IsFair slot answers.admission (call c p) refl
        (omega (arith, runs, q.0), omega (arith, records, q.1))
  govern_by-IsFair false slot p e q = run_with-IsFair slot omitted p q (inr e)

  at_read-IsFair :
      (slot : Option CacheSlot) (value : Race CacheRead) (p : Progress)
      → IsQuiet p
      → IsFair has_governor (at_read enricher base has_governor answers slot value p).calls
  at_read-IsFair slot (settled absent) p q = govern_by-IsFair has_governor slot p refl q
  at_read-IsFair slot (settled (cached value)) p q = quiet-IsFair p q
  at_read-IsFair slot threw p q =
      govern_by-IsFair has_governor slot (degrade (failed_with "cache-read-error" true none) p) refl
        q
  at_read-IsFair slot timed_out p q = elim (Bool-cases answers.aborted_after_read) [
    | inl aborted ↦ rw aborted (quiet-IsFair p q)
    | inr going ↦ rw going (
        govern_by-IsFair has_governor slot
          (degrade (failed_with "cache-read-error" true (because "timeout")) p) refl q)
  ]

  at_slot-IsFair :
      (slot : Option CacheSlot) (p : Progress)
      → p.calls ≡ []
      → IsFair has_governor (at_slot enricher base has_governor answers slot p).calls
  at_slot-IsFair none p e = govern_by-IsFair has_governor none p refl (rw e, rw e)
  at_slot-IsFair (some slot) p e =
      at_read-IsFair (some slot) answers.read (call (read_cache slot.key) p) (rw e, rw e)

-- A source runs at most once, and under a governor only where `admit` grants it; the governor is
-- told of each run exactly once, whether it succeeded, failed, threw, timed out or was aborted, and
-- of nothing else, so that a cache hit and a denial leave its state alone.
pub run_enricher-IsFair :
    (enricher : Enricher) (base : Base) (has_governor has_cache : Bool) (answers : Answers)
    → IsFair enricher base has_governor answers has_governor
        (run_enricher enricher base has_governor answers has_cache).calls
unfolding run_enricher
run_enricher-IsFair enricher base has_governor has_cache answers =
    let resolved = cache_slot_for enricher base answers.key in
    let started : Progress = record { calls = []; degradations = [] } in
    elim (Bool-cases answers.aborted_at_start) [
      | inl aborted ↦ rw aborted (ground arith)
      | inr going ↦ rw going (elim (Bool-cases has_cache) [
        | inl cache ↦ rw cache (
            at_slot-IsFair enricher base has_governor answers resolved.slot
              (degrade_by resolved.degradation started)
              (degrade_by-calls enricher base has_governor answers resolved.degradation started))
        | inr uncached ↦
            rw uncached (at_slot-IsFair enricher base has_governor answers none started refl)
      ])
    ]
