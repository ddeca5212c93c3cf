-- ===== src/Enrich/Plan/Rounds/Justified.antt =====
-- The loop keeps the cause of each run (packages/core/src/inspect-async.ts).
use mathlib.Core.Path.{subst}
use mathlib.Core.Option.{some_inj}
use linklint.Common.{
  ==_iff, All, Bool, Bool-cases, List, [], arith, false, inl, inr, none, refl, some, suc, sym, zero,
  ℕ, ◌==◌, ◌∷◌, ◌≡◌, ◌⊎◌,
}
use linklint.Enrich.{Base, EnricherRun}
use linklint.Enrich.Plan.{Choice, PlannedEnricher, Runs, State, has_index, keep, set_run}
use linklint.Enrich.Plan.Cycle.{find_index}
use linklint.Enrich.Plan.Rounds.Reached.{at_round-next}
use linklint.Enrich.Plan.Rounds.{Running, apply, choose, loop, planned, round, settle}
use linklint.Enrich.Plan.Rounds.Causes.{Cause, Cause-mono, Caused, Extends, Waits, at_round}
use linklint.Enrich.Plan.Rounds.Settles.{All-weaken, keep-All, outside}
use linklint.Enrich.Plan.Rounds.Ends.{choose-All}
use linklint.Enrich.Plan.Rounds.Chosen.{choose-Caused, keep-true}

settle-outside :
    (run : PlannedEnricher → EnricherRun) (ss : List PlannedEnricher) (runs : Runs) (i : ℕ)
    → has_index i ss ≡ false
    → settle run ss runs i ≡ runs i
settle-outside run [] runs i h = refl
settle-outside run (s ∷ ss) runs i h = elim (Bool-cases (s.index == i)) [
  | inl same ↦ absurd (ground (arith, rw same at h))
  | inr other ↦
      rw (settle-outside run ss (set_run s.index (run s) runs) i (rw other at h)) (rw other refl)
]

unsettled-outside :
    (ss : List PlannedEnricher) (runs : Runs) (i : ℕ) (r : EnricherRun)
    → All (λ s. runs s.index ≡ none) ss
    → runs i ≡ some r
    → has_index i ss ≡ false
unsettled-outside [] runs i r h e = refl
unsettled-outside (s ∷ ss) runs i r h e = elim (Bool-cases (s.index == i)) [
  | inl same ↦ absurd (cc (h.0, e, (==_iff s.index i).0 same))
  | inr other ↦ rw other (unsettled-outside ss runs i r h.1 e)
]

-- A settled run was settled before, or is the run of a member.
settle-inv :
    (P : PlannedEnricher → Type 0) (run : PlannedEnricher → EnricherRun) (ss : List PlannedEnricher)
    (runs : Runs) (i : ℕ) (r : EnricherRun)
    → All P ss
    → settle run ss runs i ≡ some r
    → (runs i ≡ some r) ⊎ ((s : PlannedEnricher) × (P s × ((s.index ≡ i) × (r ≡ run s))))
settle-inv P run [] runs i r h e = inl e
settle-inv P run (s ∷ ss) runs i r h e =
    elim (settle-inv P run ss (set_run s.index (run s) runs) i r h.1 e) [
      | inr there ↦ inr there
      | inl here ↦ elim (Bool-cases (s.index == i)) [
        | inl same ↦ inr (s, (h.0, ((==_iff s.index i).0 same, sym (some_inj.0 (rw same at here)))))
        | inr other ↦ inl (rw other at here)
      ]
    ]

module _ (base : Base) (steps : List PlannedEnricher) (running : Running) (aborted : ℕ → Bool) where
  -- The run of an index is that of the step with the index, and has a cause.
  abbrev pub Explains : Runs → ℕ → EnricherRun → Type 0
  Explains runs i r =
      (s : PlannedEnricher) × ((find_index i steps ≡ some s)
        × Cause base steps running aborted runs s r)

  pub record Justified (st : State) : Type 0 where
    pub waiting : All (Waits base steps running aborted) st.pending
    pub unsettled : All (λ s. st.runs s.index ≡ none) st.pending
    pub explained : (i : ℕ) (r : EnricherRun) → st.runs i ≡ some r → Explains st.runs i r

  settle-Extends :
      (run : PlannedEnricher → EnricherRun) (ss : List PlannedEnricher) (runs : Runs)
      → All (λ s. runs s.index ≡ none) ss
      → Extends runs (settle run ss runs)
  settle-Extends run ss runs h i r e =
      rw (settle-outside run ss runs i (unsettled-outside ss runs i r h e)) e

  Explains-mono :
      (a b : Runs) (i : ℕ) (r : EnricherRun) → Extends a b → Explains a i r → Explains b i r
  Explains-mono a b i r h (s, (at, cause)) =
      (s, (at, Cause-mono base steps running aborted a b s r h cause))

  member-Explains :
      (runs : Runs) (c : Choice) (i : ℕ) (r : EnricherRun) (s : PlannedEnricher)
      → Waits base steps running aborted s × Cause base steps running aborted runs s (c.run s)
      → s.index ≡ i
      → r ≡ c.run s
      → Explains runs i r
  member-Explains runs c i r s w here e = (
    s,
    (
      subst (λ j. find_index j steps ≡ some s) here (w.0.0),
      subst (λ x. Cause base steps running aborted runs s x) (sym e) w.1,
    ),
  )

  settle-Explains :
      (st : State) (c : Choice) (i : ℕ) (r : EnricherRun)
      → Justified st
      → Caused base steps running aborted st.runs c
      → All (λ s. st.runs s.index ≡ none) c.members
      → settle c.run c.members st.runs i ≡ some r
      → Explains (settle c.run c.members st.runs) i r
  settle-Explains st c i r j k free e =
      Explains-mono st.runs (settle c.run c.members st.runs) i r
        (settle-Extends c.run c.members st.runs free)
        (elim (settle-inv
          (λ s.
            Waits base steps running aborted s
            × Cause base steps running aborted st.runs s (c.run s))
          c.run c.members st.runs i r k e) [
            | inl before ↦ j.explained i r before
            | inr (s, (w, (here, same))) ↦ member-Explains st.runs c i r s w here same
          ])

  apply-Justified :
      (st : State) (c : Choice)
      → Justified st
      → Caused base steps running aborted st.runs c
      → All (λ s. st.runs s.index ≡ none) c.members
      → Justified (apply base steps running aborted c st)
  apply-Justified st c j k free = record {
    waiting = keep-All (Waits base steps running aborted) (outside c.members) st.pending j.waiting;
    unsettled =
        All-weaken (keep (outside c.members) st.pending)
          (λ s h. rw (settle-outside c.run c.members st.runs s.index (ground (arith, h.1))) (h.0))
          (keep-true (λ s. st.runs s.index ≡ none) (outside c.members) st.pending j.unsettled);
    explained = λ i r e. settle-Explains st c i r j k free e;
  }

  round-Justified :
      (k : ℕ)
      → Justified (at_round base steps running aborted k)
      → Justified (round base steps running aborted k (at_round base steps running aborted k))
  unfolding round
  round-Justified k j =
      let st = at_round base steps running aborted k in
      apply-Justified st (choose base steps running aborted k st) j
        (choose-Caused base steps running aborted k j.waiting)
        (choose-All base steps running aborted (λ s. st.runs s.index ≡ none) k st j.unsettled)

  pub at_round-Justified :
      Justified (planned base steps running aborted)
      → (k : ℕ) → Justified (at_round base steps running aborted k)
  unfolding loop
  at_round-Justified j zero = j
  at_round-Justified j (suc k) = elim (at_round-next base steps running aborted k) [
    | inl same ↦ subst Justified (sym same) (at_round-Justified j k)
    | inr one ↦ subst Justified (sym one) (round-Justified k (at_round-Justified j k))
  ]
