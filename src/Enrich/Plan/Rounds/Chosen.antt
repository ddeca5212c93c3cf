-- ===== src/Enrich/Plan/Rounds/Chosen.antt =====
-- Each round settles steps for a reason (packages/core/src/inspect-async.ts).
use linklint.Common.{
  All, Bool, Bool-cases, List, [], false, inl, inr, is_empty, none, refl, true, ℕ, ◌∷◌, ◌≡◌,
}
use linklint.Enrich.{Base}
use linklint.Enrich.Plan.{
  Choice, PlannedEnricher, State, blocked_run, cycle_run, is_available, is_blocked, is_ready, keep,
  previous_outcomes, run_of, skip_run,
}
use linklint.Enrich.Plan.Cycle.{find_dependency_cycle}
use linklint.Enrich.Plan.Cycle.Members.{find_dependency_cycle-All}
use linklint.Enrich.Plan.Cycle.Stuck.{find_dependency_cycle-nonempty}
use linklint.Enrich.Plan.Cycle.Sound.{find_dependency_cycle-OnItself}
use linklint.Enrich.Plan.Cycle.Found.{OnItself}
use linklint.Enrich.Plan.Rounds.Stalled.{stalled-IsStuck}
use linklint.Enrich.Plan.Rounds.Reached.{at_round-Covered}
use linklint.Enrich.Plan.Rounds.{Running, choose, or_first, started_run}
use linklint.Enrich.Plan.Rounds.Causes.{
  Cause, Caused, Waits, all-All, at_round, by_abort, by_block, by_cycle, by_start,
}
use linklint.Enrich.Plan.Rounds.Settles.{All-both, All-weaken}

-- What is kept has the property and passes the test.
pub keep-true :
    (P : PlannedEnricher → Type 0) (p : PlannedEnricher → Bool) (ss : List PlannedEnricher)
    → All P ss
    → All (λ s. P s × (p s ≡ true)) (keep p ss)
keep-true P p [] h = tt
keep-true P p (s ∷ ss) h = elim (Bool-cases (p s)) [
  | inl kept ↦ rw kept ((h.0, kept), keep-true P p ss h.1)
  | inr dropped ↦ rw dropped (keep-true P p ss h.1)
]

or_first-found :
    (P : PlannedEnricher → Type 0) (cs ss : List PlannedEnricher)
    → All P cs
    → (is_empty ss ≡ false → is_empty cs ≡ false)
    → All P (or_first cs ss)
or_first-found P (c ∷ cs) ss h k = h
or_first-found P [] [] h k = tt
or_first-found P [] (s ∷ ss) h k = let f = k refl in cc

module _ (base : Base) (steps : List PlannedEnricher) (running : Running) (aborted : ℕ → Bool)
    (k : ℕ) where
  abbrev now : State
  now = at_round base steps running aborted k

  abbrev Reasoned : Choice → Type 0
  Reasoned c = Caused base steps running aborted now.runs c

  module _ (h : All (Waits base steps running aborted) now.pending) where
    ready-Caused :
        aborted k ≡ false
        → Reasoned (record {
          members = keep (is_ready base steps now.runs) now.pending;
          run =
              started_run base steps running aborted (previous_outcomes base steps steps now.runs);
        })
    ready-Caused on =
        All-weaken (keep (is_ready base steps now.runs) now.pending)
          (λ s w. (
            w.0,
            by_start k on (w.0.1) w.1
                (all-All (λ d. is_available (run_of base steps now.runs d)) s.dependencies w.1)
                refl,
          ))
          (keep-true (Waits base steps running aborted) (is_ready base steps now.runs) now.pending
            h)

    blocked-Caused : Reasoned (record {
      members = keep (is_blocked base steps now.runs) now.pending;
      run = blocked_run base steps now.runs;
    })
    blocked-Caused =
        All-weaken (keep (is_blocked base steps now.runs) now.pending)
          (λ s w. (w.0, by_block k w.1 w.1 refl))
          (keep-true (Waits base steps running aborted) (is_blocked base steps now.runs) now.pending
            h)

    -- The first pending step is never taken for want of a cycle.
    cycle-Caused :
        is_empty (keep (is_ready base steps now.runs) now.pending) ≡ true
        → is_empty (keep (is_blocked base steps now.runs) now.pending) ≡ true
        → Reasoned (record {
          members = or_first (find_dependency_cycle steps now.pending) now.pending;
          run = cycle_run base steps;
        })
    cycle-Caused ready blocked =
        let placed = All-weaken now.pending (λ s w. w.0) h in
        let stuck =
          stalled-IsStuck base steps running aborted now h
            (at_round-Covered base steps running aborted k) ready blocked in
        or_first-found
          (λ s.
            Waits base steps running aborted s
            × Cause base steps running aborted now.runs s (cycle_run base steps s))
          (find_dependency_cycle steps now.pending) now.pending
          (All-weaken (find_dependency_cycle steps now.pending) (λ s w. (w.0, by_cycle w.1 refl))
            (All-both (Waits base steps running aborted) (OnItself steps)
              (find_dependency_cycle steps now.pending)
              (find_dependency_cycle-All (Waits base steps running aborted) steps now.pending h)
              (find_dependency_cycle-OnItself steps now.pending placed)))
          (find_dependency_cycle-nonempty steps now.pending stuck)

    stopped-Caused :
        aborted k ≡ true
        → Reasoned
            (record { members = now.pending; run = skip_run base steps "caller-aborted" none })
    stopped-Caused stop = All-weaken now.pending (λ s w. (w, by_abort k stop refl)) h

    pub choose-Caused : Reasoned (choose base steps running aborted k now)
    unfolding choose
    choose-Caused = elim (Bool-cases (aborted k)) [
      | inl stop ↦ rw stop (stopped-Caused stop)
      | inr on ↦ elim (Bool-cases (is_empty (keep (is_ready base steps now.runs) now.pending))) [
        | inr some' ↦ rw (on, some') (ready-Caused on)
        | inl none' ↦
            elim (Bool-cases (is_empty (keep (is_blocked base steps now.runs) now.pending))) [
              | inr some' ↦ rw (on, none', some') blocked-Caused
              | inl free ↦ rw (on, none', free) (cycle-Caused none' free)
            ]
      ]
    ]
