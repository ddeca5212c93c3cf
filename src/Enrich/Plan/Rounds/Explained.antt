-- ===== src/Enrich/Plan/Rounds/Explained.antt =====
-- Why each enricher of a whole plan has the run it has (packages/core/src/inspect-async.ts).
use mathlib.Core.Path.{subst}
use mathlib.Core.Option.{some_inj}
use linklint.Common.{
  ==_iff, All, All-append, Bool, Bool-cases, List, Option, Option-cases, [], arith, false, inl, inr,
  is_none, length, none, refl, some, sym, ℕ, ◌+◌, ◌==◌, ◌∷◌, ◌≡◌, ◌≤◌,
}
use linklint.Enrich.{Base, Enricher, EnricherRun, Payload}
use linklint.Enrich.Plan.{
  PlannedEnricher, Runs, State, admit_steps, at_details, plan_details, plan_steps, skip_run,
}
use linklint.Enrich.Plan.Cycle.{find_index}
use linklint.Enrich.Plan.Rounds.{
  Running, execute_enrichment_plan, executed, final_runs, no_runs, or_unsettled, planned,
}
use linklint.Enrich.Plan.Rounds.Causes.{Cause, Waits, by_plan}
use linklint.Enrich.Plan.Rounds.Settles.{All-both, All-weaken}
use linklint.Enrich.Plan.Rounds.Justified.{Justified, at_round-Justified}
use linklint.Enrich.Plan.Rounds.Total.{executed-IsTotal}

-- In the order of the plan, the run of each step has a cause.
unfoldable pub Explained :
    (base : Base) (steps : List PlannedEnricher) (running : Running) (aborted : ℕ → Bool)
    (runs : Runs)
    → List PlannedEnricher
    → List EnricherRun
    → Type 0
Explained base steps running aborted runs [] [] = Unit {0}
Explained base steps running aborted runs [] (r ∷ rs) = ⊥
Explained base steps running aborted runs (s ∷ ss) [] = ⊥
Explained base steps running aborted runs (s ∷ ss) (r ∷ rs) =
    Cause base steps running aborted runs s r × Explained base steps running aborted runs ss rs

-- The step is the first of its index.
abbrev Placed : List PlannedEnricher → PlannedEnricher → Type 0
Placed steps s = find_index s.index steps ≡ some s

differs : (n m : ℕ) → n + 1 ≤ m → (n == m) ≡ false
differs n m h = ground (arith, h)

plan_steps-ge : (n m : ℕ) (es : List Enricher) → n ≤ m → All (λ s. n ≤ s.index) (plan_steps m es)
unfolding plan_steps
plan_steps-ge n m [] h = tt
plan_steps-ge n m (e ∷ es) h = (h, plan_steps-ge n (m + 1) es (omega arith))

plan_steps-Placed : (n : ℕ) (es : List Enricher) → All (Placed (plan_steps n es)) (plan_steps n es)
unfolding plan_steps
plan_steps-Placed n [] = tt
plan_steps-Placed n (e ∷ es) = (
  ground arith,
  All-weaken (plan_steps (n + 1) es) (λ s h. rw (differs n s.index (h.0)) (h.1))
      (All-both (λ s. n + 1 ≤ s.index) (Placed (plan_steps (n + 1) es)) (plan_steps (n + 1) es)
        (plan_steps-ge (n + 1) (n + 1) es (omega arith)) (plan_steps-Placed (n + 1) es)),
)

module _ (base : Base) (steps : List PlannedEnricher) (running : Running) (aborted : ℕ → Bool) where
  -- The run of an index is the skip of a step that cannot be planned.
  abbrev Refused : ℕ → EnricherRun → Type 0
  Refused i r =
      (s : PlannedEnricher) × ((find_index i steps ≡ some s)
        × ((details : Payload) × ((plan_details base steps s ≡ some details)
              × (r ≡ skip_run base steps "invalid-plan" (some details) s))))

  record Admitted (st : State) : Type 0 where
    waiting : All (Waits base steps running aborted) st.pending
    refused : (i : ℕ) (r : EnricherRun) → st.runs i ≡ some r → Refused i r

  at_details-Admitted :
      (s : PlannedEnricher) (o : Option Payload) (st : State)
      → Placed steps s
      → plan_details base steps s ≡ o
      → Admitted st
      → Admitted (at_details base steps s o st)
  at_details-Admitted s none st h e a = record {
    waiting =
        All-append (Waits base steps running aborted) st.pending (s ∷ []) a.waiting ((h, e), tt);
    refused = a.refused;
  }
  at_details-Admitted s (some d) st h e a = record {
    waiting = a.waiting;
    refused = λ i r k. elim (Bool-cases (s.index == i)) [
      | inl same ↦ (
        s,
        (
          subst (λ j. find_index j steps ≡ some s) ((==_iff s.index i).0 same) h,
          (d, (e, sym (some_inj.0 (rw same at k)))),
        ),
      )
      | inr other ↦ a.refused i r (rw other at k)
    ];
  }

  admit_steps-Admitted :
      (ss : List PlannedEnricher) (st : State)
      → All (Placed steps) ss
      → Admitted st
      → Admitted (admit_steps base steps ss st)
  unfolding admit_steps
  admit_steps-Admitted [] st h a = a
  admit_steps-Admitted (s ∷ ss) st h a =
      admit_steps-Admitted ss (at_details base steps s (plan_details base steps s) st) h.1
        (at_details-Admitted s (plan_details base steps s) st h.0 refl a)

  Waits-unsettled :
      (st : State) (s : PlannedEnricher)
      → Admitted st
      → Waits base steps running aborted s
      → st.runs s.index ≡ none
  Waits-unsettled st s a w = elim (Option-cases (st.runs s.index)) [
    | inl free ↦ free
    | inr (r, e) ↦
        let (t, (at, (d, (bad, _)))) = a.refused s.index r e in absurd (cc (w.0, at, w.1, bad))
  ]

  Admitted-Justified : (st : State) → Admitted st → Justified base steps running aborted st
  Admitted-Justified st a = record {
    waiting = a.waiting;
    unsettled = All-weaken st.pending (λ s w. Waits-unsettled st s a w) a.waiting;
    explained =
        λ i r e. let (t, (at, (d, (bad, same)))) = a.refused i r e in (t, (at, by_plan d bad same));
  }

  executed-Justified :
      All (Placed steps) steps
      → Justified base steps running aborted (executed base steps running aborted)
  unfolding executed planned
  executed-Justified h =
      at_round-Justified base steps running aborted
        (Admitted-Justified (planned base steps running aborted) (
          admit_steps-Admitted steps
            (record { runs = no_runs base steps running aborted; pending = [] }) h
            (record { waiting = tt; refused = λ i r e. absurd (ground arith) })))
        (length steps)

  settled-Cause :
      (st : State) (s : PlannedEnricher) (o : Option EnricherRun)
      → Justified base steps running aborted st
      → Placed steps s
      → st.runs s.index ≡ o
      → is_none o ≡ false
      → Cause base steps running aborted st.runs s (or_unsettled base steps running aborted o s)
  settled-Cause st s none j h e k = absurd (ground arith)
  settled-Cause st s (some r) j h e k =
      let (t, (at, cause)) = j.explained s.index r e in
      subst (λ x. Cause base steps running aborted st.runs x r) (cc (at, h)) cause

  final_runs-Explained :
      (st : State) (ss : List PlannedEnricher)
      → Justified base steps running aborted st
      → All (λ s. Placed steps s × (is_none (st.runs s.index) ≡ false)) ss
      → Explained base steps running aborted st.runs ss
          (final_runs base steps running aborted ss st.runs)
  unfolding Explained
  final_runs-Explained st [] j h = tt
  final_runs-Explained st (s ∷ ss) j h = (
    settled-Cause st s (st.runs s.index) j (h.0.0) refl (h.0.1),
    final_runs-Explained st ss j h.1,
  )

-- There is one run for each enricher of the plan, in its order, and each has a cause: the enricher
-- ran in some round, with the outcomes so far, after all its prerequisites ended available, and its
-- token is its own and its dependencies are known; or it is the skip for a step that cannot be
-- planned, the skip for the prerequisites that had ended unavailable at some round, the skip for a
-- cycle, only of a step that is its own prerequisite over one or more steps of the plan, or the skip
-- for an abort that was signalled.
pub execute_enrichment_plan-IsExplained :
    (base : Base) (plan : List Enricher) (running : Running) (aborted : ℕ → Bool)
    → Explained base
        (plan_steps 0 plan)
        running
        aborted
        (executed base (plan_steps 0 plan) running aborted).runs
        (plan_steps 0 plan)
        (execute_enrichment_plan base plan running aborted)
unfolding execute_enrichment_plan
execute_enrichment_plan-IsExplained base plan running aborted =
    let steps = plan_steps 0 plan in
    final_runs-Explained base steps running aborted (executed base steps running aborted) steps
      (executed-Justified base steps running aborted (plan_steps-Placed 0 plan))
      (All-both (Placed steps)
        (λ s. is_none ((executed base steps running aborted).runs s.index) ≡ false) steps
        (plan_steps-Placed 0 plan) (executed-IsTotal base steps running aborted).1)
