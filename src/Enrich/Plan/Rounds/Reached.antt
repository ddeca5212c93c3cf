-- ===== src/Enrich/Plan/Rounds/Reached.antt =====
-- The states that the loop goes through (packages/core/src/inspect-async.ts).
use mathlib.Core.Path.{subst}
use linklint.Common.{
  All, Bool, Bool-cases, List, [], arith, inl, inr, is_empty, refl, suc, zero, ℕ, ◌+◌, ◌≡◌, ◌⊎◌,
}
use linklint.Enrich.{Base}
use linklint.Enrich.Plan.{PlannedEnricher, State}
use linklint.Enrich.Plan.Rounds.{Running, loop, no_runs, planned, round}
use linklint.Enrich.Plan.Rounds.Causes.{at_round}
use linklint.Enrich.Plan.Rounds.Settles.{All-weaken}
use linklint.Enrich.Plan.Rounds.Total.{Covered, admit_steps-All, loop-keeps}

module _ (base : Base) (steps : List PlannedEnricher) (running : Running) (aborted : ℕ → Bool) where
  -- One more round of fuel is one more round, or none.
  abbrev Last : ℕ → ℕ → State → Type 0
  Last fuel k st =
      (loop base steps running aborted (suc fuel) k st ≡ loop base steps running aborted fuel k st)
      ⊎ (loop base steps running aborted (suc fuel) k st
          ≡ round base steps running aborted (k + fuel) (loop base steps running aborted fuel k st))

  loop-Last : (fuel k : ℕ) (st : State) → Last fuel k st
  unfolding loop
  loop-Last zero k st = elim (Bool-cases (is_empty st.pending)) [
    | inl done ↦ inl (rw done refl)
    | inr more ↦ inr (
        rw more (
          subst (λ j. round base steps running aborted k st ≡ round base steps running aborted j st)
            (omega arith) refl))
  ]
  loop-Last (suc fuel) k st = elim (Bool-cases (is_empty st.pending)) [
    | inl done ↦ inl (rw done refl)
    | inr more ↦
        let next = round base steps running aborted k st in
        let j : suc k + fuel ≡ k + suc fuel = omega arith in
        elim (loop-Last fuel (suc k) next) [
          | inl same ↦ inl (rw more same)
          | inr one ↦ inr (rw more (rw j at one))
        ]
  ]

  pub at_round-next :
      (k : ℕ)
      → (at_round base steps running aborted (suc k) ≡ at_round base steps running aborted k)
        ⊎ (at_round base steps running aborted (suc k)
            ≡ round base steps running aborted k (at_round base steps running aborted k))
  at_round-next k =
      subst
        (λ j.
          (at_round base steps running aborted (suc k) ≡ at_round base steps running aborted k)
          ⊎ (at_round base steps running aborted (suc k)
              ≡ round base steps running aborted j (at_round base steps running aborted k)))
        (omega arith) (loop-Last k 0 (planned base steps running aborted))

  pub at_round-Covered :
      (k : ℕ) → All (λ s. Covered s.index (at_round base steps running aborted k)) steps
  unfolding planned
  at_round-Covered k =
      All-weaken steps
        (λ s h.
          loop-keeps base steps running aborted k 0 (planned base steps running aborted) s.index h)
        (admit_steps-All base steps running aborted steps
          (record { runs = no_runs base steps running aborted; pending = [] }))
