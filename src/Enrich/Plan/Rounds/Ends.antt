-- ===== src/Enrich/Plan/Rounds/Ends.antt =====
-- The loop of `executeEnrichmentPlan` ends with every step settled
-- (packages/core/src/inspect-async.ts).
use linklint.Common.{
  All, Bool, Bool-cases, List, [], arith, false, inl, inr, is_empty, length, refl, suc, true, zero,
  ℕ, ◌<◌, ◌∷◌, ◌≡◌, ◌≤◌,
}
use linklint.Enrich.{Base}
use linklint.Enrich.Plan.{
  Choice, PlannedEnricher, State, blocked_run, has_index, is_blocked, is_ready, keep,
}
use linklint.Enrich.Plan.Cycle.{find_dependency_cycle}
use linklint.Enrich.Plan.Cycle.Members.{find_dependency_cycle-All}
use linklint.Enrich.Plan.Rounds.{Running, choose, loop, or_cycle, or_first, round}
use linklint.Enrich.Plan.Rounds.Settles.{has_index-All, keep-All, keep-outside_lt, outside}

pub or_first-All :
    (P : PlannedEnricher → Type 0) (cs ss : List PlannedEnricher)
    → All P cs
    → All P ss
    → All P (or_first cs ss)
or_first-All P (c ∷ cs) ss h k = h
or_first-All P [] [] h k = tt
or_first-All P [] (s ∷ ss) h k = (k.0, tt)

or_first-nonempty :
    (cs ss : List PlannedEnricher) → is_empty ss ≡ false → is_empty (or_first cs ss) ≡ false
or_first-nonempty (c ∷ cs) ss h = refl
or_first-nonempty [] [] h = cc
or_first-nonempty [] (s ∷ ss) h = refl

empty-of_le : (ss : List PlannedEnricher) → length ss ≤ 0 → ss ≡ []
empty-of_le [] h = refl
empty-of_le (s ∷ ss) h = absurd (omega arith)

empty-of_true : (ss : List PlannedEnricher) → is_empty ss ≡ true → ss ≡ []
empty-of_true [] h = refl
empty-of_true (s ∷ ss) h = cc

module _ (base : Base) (steps : List PlannedEnricher) (running : Running) (aborted : ℕ → Bool) where
  -- A choice takes its members from the pending steps, and some, while there are any.
  or_cycle-All :
      (P : PlannedEnricher → Type 0) (c : Choice) (pending : List PlannedEnricher)
      → All P c.members
      → All P pending
      → All P (or_cycle base steps running aborted c pending).members
  or_cycle-All P c pending h k = elim (Bool-cases (is_empty c.members)) [
    | inl none' ↦ rw none' (
        or_first-All P (find_dependency_cycle steps pending) pending
          (find_dependency_cycle-All P steps pending k) k)
    | inr some' ↦ rw some' h
  ]

  pub choose-All :
      (P : PlannedEnricher → Type 0) (k : ℕ) (st : State)
      → All P st.pending
      → All P (choose base steps running aborted k st).members
  unfolding choose
  choose-All P k st h =
      let ready = is_ready base steps st.runs in
      let blocked = is_blocked base steps st.runs in
      elim (Bool-cases (aborted k)) [
        | inl stop ↦ rw stop h
        | inr go ↦ elim (Bool-cases (is_empty (keep ready st.pending))) [
          | inl none' ↦
              rw (go, none')
                (or_cycle-All P
                  (record {
                    members = keep blocked st.pending;
                    run = blocked_run base steps st.runs;
                  })
                  st.pending (keep-All P blocked st.pending h) h)
          | inr some' ↦ rw (go, some') (keep-All P ready st.pending h)
        ]
      ]

  or_cycle-nonempty :
      (c : Choice) (pending : List PlannedEnricher)
      → is_empty pending ≡ false
      → is_empty (or_cycle base steps running aborted c pending).members ≡ false
  or_cycle-nonempty c pending h = elim (Bool-cases (is_empty c.members)) [
    | inl none' ↦ rw none' (or_first-nonempty (find_dependency_cycle steps pending) pending h)
    | inr some' ↦ rw some' some'
  ]

  choose-nonempty :
      (k : ℕ) (st : State)
      → is_empty st.pending ≡ false
      → is_empty (choose base steps running aborted k st).members ≡ false
  unfolding choose
  choose-nonempty k st h =
      let ready = is_ready base steps st.runs in
      let blocked = is_blocked base steps st.runs in
      elim (Bool-cases (aborted k)) [
        | inl stop ↦ rw stop h
        | inr go ↦ elim (Bool-cases (is_empty (keep ready st.pending))) [
          | inl none' ↦
              rw (go, none')
                (or_cycle-nonempty
                  (record {
                    members = keep blocked st.pending;
                    run = blocked_run base steps st.runs;
                  })
                  st.pending h)
          | inr some' ↦ rw (go, some') some'
        ]
      ]

  shrinks :
      (members pending : List PlannedEnricher)
      → is_empty members ≡ false
      → All (λ s. has_index s.index pending ≡ true) members
      → length (keep (outside members) pending) < length pending
  shrinks [] pending h k = cc
  shrinks (m ∷ ms) pending h k = keep-outside_lt m.index (m ∷ ms) pending k.0 (ground arith)

  round-shrinks :
      (k : ℕ) (st : State)
      → is_empty st.pending ≡ false
      → length (round base steps running aborted k st).pending < length st.pending
  unfolding round
  round-shrinks k st h =
      shrinks (choose base steps running aborted k st).members st.pending (choose-nonempty k st h)
        (choose-All (λ s. has_index s.index st.pending ≡ true) k st (has_index-All st.pending))

  pub loop-empties :
      (fuel k : ℕ) (st : State)
      → length st.pending ≤ fuel
      → (loop base steps running aborted fuel k st).pending ≡ []
  unfolding loop
  loop-empties zero k st h = empty-of_le st.pending h
  loop-empties (suc fuel) k st h = elim (Bool-cases (is_empty st.pending)) [
    | inl done ↦ rw done (empty-of_true st.pending done)
    | inr more ↦ rw more (
        loop-empties fuel (suc k) (round base steps running aborted k st)
          (omega (arith, round-shrinks k st more)))
  ]
