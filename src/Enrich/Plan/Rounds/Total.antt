-- ===== src/Enrich/Plan/Rounds/Total.antt =====
-- Every step of a plan has a run after the loop (packages/core/src/inspect-async.ts).
use linklint.Common.{
  All, Bool, Bool-cases, List, Option, [], arith, false, inl, inr, is_empty, is_none, length, none,
  refl, some, suc, true, zero, ℕ, ◌++◌, ◌+◌, ◌==◌, ◌∷◌, ◌≡◌, ◌≤◌, ◌⊎◌,
}
use linklint.Enrich.{Base, Payload}
use linklint.Enrich.Plan.{
  Choice, PlannedEnricher, State, admit_steps, at_details, has_index, plan_details,
}
use linklint.Enrich.Plan.Rounds.{Running, apply, choose, executed, loop, no_runs, planned, round}
use linklint.Enrich.Plan.Rounds.Settles.{All-weaken, keep-outside_has, settle-keeps, settle-settles}
use linklint.Enrich.Plan.Rounds.Ends.{loop-empties}

-- The step of the index is pending, or has a run.
abbrev pub Covered : ℕ → State → Type 0
Covered i st = (has_index i st.pending ≡ true) ⊎ (is_none (st.runs i) ≡ false)

has_index-append :
    (i : ℕ) (ss ts : List PlannedEnricher) → has_index i ss ≡ true → has_index i (ss ++ ts) ≡ true
has_index-append i [] ts h = absurd (ground arith)
has_index-append i (s ∷ ss) ts h = elim (Bool-cases (s.index == i)) [
  | inl same ↦ rw same
  | inr other ↦ rw other (has_index-append i ss ts (rw other at h))
]

has_index-last :
    (i : ℕ) (ss : List PlannedEnricher) (s : PlannedEnricher)
    → (s.index == i) ≡ true
    → has_index i (ss ++ (s ∷ [])) ≡ true
has_index-last i [] s h = rw h
has_index-last i (t ∷ ss) s h = elim (Bool-cases (t.index == i)) [
  | inl same ↦ rw same
  | inr other ↦ rw other (has_index-last i ss s h)
]

length-last :
    (ss : List PlannedEnricher) (s : PlannedEnricher) → length (ss ++ (s ∷ [])) ≡ suc (length ss)
length-last [] s = refl
length-last (t ∷ ss) s = rw (length-last ss s)

module _ (base : Base) (steps : List PlannedEnricher) (running : Running) (aborted : ℕ → Bool) where
  at_details-keeps :
      (s : PlannedEnricher) (d : Option Payload) (st : State) (i : ℕ)
      → Covered i st
      → Covered i (at_details base steps s d st)
  at_details-keeps s none st i (inl p) = inl (has_index-append i st.pending (s ∷ []) p)
  at_details-keeps s none st i (inr p) = inr p
  at_details-keeps s (some d) st i (inl p) = inl p
  at_details-keeps s (some d) st i (inr p) = inr (ground arith)

  at_details-covers :
      (s : PlannedEnricher) (d : Option Payload) (st : State)
      → Covered s.index (at_details base steps s d st)
  at_details-covers s none st = inl (has_index-last s.index st.pending s (ground arith))
  at_details-covers s (some d) st = inr (ground arith)

  admit_steps-keeps :
      (ss : List PlannedEnricher) (st : State) (i : ℕ)
      → Covered i st
      → Covered i (admit_steps base steps ss st)
  unfolding admit_steps
  admit_steps-keeps [] st i h = h
  admit_steps-keeps (s ∷ ss) st i h =
      admit_steps-keeps ss (at_details base steps s (plan_details base steps s) st) i
        (at_details-keeps s (plan_details base steps s) st i h)

  pub admit_steps-All :
      (ss : List PlannedEnricher) (st : State)
      → All (λ s. Covered s.index (admit_steps base steps ss st)) ss
  unfolding admit_steps
  admit_steps-All [] st = tt
  admit_steps-All (s ∷ ss) st =
      let next = at_details base steps s (plan_details base steps s) st in
      (
        admit_steps-keeps ss next s.index (at_details-covers s (plan_details base steps s) st),
        admit_steps-All ss next,
      )

  at_details-length :
      (s : PlannedEnricher) (d : Option Payload) (st : State)
      → length (at_details base steps s d st).pending ≤ suc (length st.pending)
  at_details-length s none st = omega (arith, length-last st.pending s)
  at_details-length s (some d) st = omega arith

  admit_steps-length :
      (ss : List PlannedEnricher) (st : State)
      → length (admit_steps base steps ss st).pending ≤ length ss + length st.pending
  unfolding admit_steps
  admit_steps-length [] st = omega arith
  admit_steps-length (s ∷ ss) st = omega (
    arith,
    admit_steps-length ss (at_details base steps s (plan_details base steps s) st),
    at_details-length s (plan_details base steps s) st,
  )

  apply-keeps :
      (c : Choice) (st : State) (i : ℕ)
      → Covered i st
      → Covered i (apply base steps running aborted c st)
  apply-keeps c st i (inr p) = inr (settle-keeps c.run c.members st.runs i p)
  apply-keeps c st i (inl p) = elim (Bool-cases (has_index i c.members)) [
    | inl chosen ↦ inr (settle-settles c.run c.members st.runs i chosen)
    | inr other ↦ inl (keep-outside_has i c.members st.pending p other)
  ]

  round-keeps :
      (k : ℕ) (st : State) (i : ℕ)
      → Covered i st
      → Covered i (round base steps running aborted k st)
  unfolding round
  round-keeps k st i h = apply-keeps (choose base steps running aborted k st) st i h

  pub loop-keeps :
      (fuel k : ℕ) (st : State) (i : ℕ)
      → Covered i st
      → Covered i (loop base steps running aborted fuel k st)
  unfolding loop
  loop-keeps zero k st i h = h
  loop-keeps (suc fuel) k st i h = elim (Bool-cases (is_empty st.pending)) [
    | inl done ↦ rw done h
    | inr more ↦
        rw more
          (loop-keeps fuel (suc k) (round base steps running aborted k st) i (round-keeps k st i h))
  ]

  runs-of_Covered :
      (i : ℕ) (st : State) → st.pending ≡ [] → Covered i st → is_none (st.runs i) ≡ false
  runs-of_Covered i st e (inr p) = p
  runs-of_Covered i st e (inl p) = absurd (ground (arith, rw e at p))

  -- The loop of a plan ends, with at most a round for each step, with no step pending.
  pub executed-pending : (executed base steps running aborted).pending ≡ []
  unfolding executed planned
  executed-pending =
      loop-empties base steps running aborted (length steps) 0 (planned base steps running aborted)
        (omega (
          arith,
          admit_steps-length steps
              (record { runs = no_runs base steps running aborted; pending = [] }),
        ))

  -- Whatever the dependencies, the reports and the aborts, a loop of one round for each step of the
  -- plan leaves no step pending and settles every step: the run for an unsettled step is never used.
  pub executed-IsTotal :
      ((executed base steps running aborted).pending ≡ [])
      × All (λ s. is_none ((executed base steps running aborted).runs s.index) ≡ false) steps
  unfolding executed planned
  executed-IsTotal = (
    executed-pending,
    All-weaken steps
        (λ s h.
          runs-of_Covered s.index (executed base steps running aborted) executed-pending
            (loop-keeps (length steps) 0 (planned base steps running aborted) s.index h))
        (admit_steps-All steps
          (record { runs = no_runs base steps running aborted; pending = [] })),
  )
