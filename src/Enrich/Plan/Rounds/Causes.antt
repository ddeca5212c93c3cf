-- ===== src/Enrich/Plan/Rounds/Causes.antt =====
-- Why each enricher of a plan has the run it has (packages/core/src/inspect-async.ts).
use linklint.Common.{
  All, Bool, Bool-cases, List, Option, Option-cases, [], all, any, arith, false, inl, inr, none,
  refl, some, true, ℕ, ◌∷◌, ◌≡◌,
}
use linklint.Enrich.{Base, EnricherRun, Payload}
use linklint.Enrich.Plan.{
  Choice, PlannedEnricher, Runs, State, blocked_run, cycle_run, is_available, is_blocked, is_ready,
  is_unavailable, plan_details, previous_outcomes, run_at, run_of, skip_run, token_to_index,
}
use linklint.Enrich.Plan.Cycle.{find_index}
use linklint.Enrich.Plan.Rounds.Settles.{All-weaken}
use linklint.Enrich.Plan.Cycle.Found.{OnItself}
use linklint.Enrich.Plan.Rounds.{Running, loop, planned, started_run}

-- The state at the start of a round.
abbrev pub at_round :
    (base : Base) (steps : List PlannedEnricher) (running : Running) (aborted : ℕ → Bool)
    → ℕ
    → State
at_round base steps running aborted k =
    loop base steps running aborted k 0 (planned base steps running aborted)

-- What settles a step in a round: by_start is for an enricher that runs, the others are skips.
pub data Cause (base : Base) (steps : List PlannedEnricher) (running : Running) (aborted : ℕ → Bool)
    (runs : Runs) (s : PlannedEnricher) (r : EnricherRun) : Type 0 where
  by_start :
      (k : ℕ)
      → aborted k ≡ false
      → plan_details base steps s ≡ none
      → is_ready base steps (at_round base steps running aborted k).runs s ≡ true
      → All (λ d. is_available (run_of base steps runs d) ≡ true) s.dependencies
      → r
        ≡ started_run base steps running aborted
            (previous_outcomes base steps steps (at_round base steps running aborted k).runs)
            s
      → Cause base steps running aborted runs s r
  by_plan :
      (details : Payload)
      → plan_details base steps s ≡ some details
      → r ≡ skip_run base steps "invalid-plan" (some details) s
      → Cause base steps running aborted runs s r
  by_block :
      (k : ℕ)
      → is_blocked base steps (at_round base steps running aborted k).runs s ≡ true
      → is_blocked base steps runs s ≡ true
      → r ≡ blocked_run base steps (at_round base steps running aborted k).runs s
      → Cause base steps running aborted runs s r
  by_cycle :
      OnItself steps s → r ≡ cycle_run base steps s → Cause base steps running aborted runs s r
  by_abort :
      (k : ℕ)
      → aborted k ≡ true
      → r ≡ skip_run base steps "caller-aborted" none s
      → Cause base steps running aborted runs s r

-- No run of the first is another run in the second.
abbrev pub Extends : Runs → Runs → Type 0
Extends before after = (i : ℕ) (r : EnricherRun) → before i ≡ some r → after i ≡ some r

pub all-All : {A : Type 0} (p : A → Bool) (xs : List A) → all p xs ≡ true → All (λ x. p x ≡ true) xs
all-All p [] h = tt
all-All p (x ∷ xs) h = (ground arith, all-All p xs (ground arith))

any_mono :
    {A : Type 0} (p q : A → Bool) (xs : List A)
    → ((x : A) → p x ≡ true → q x ≡ true)
    → any p xs ≡ true
    → any q xs ≡ true
any_mono p q [] f h = absurd (ground arith)
any_mono p q (x ∷ xs) f h = elim (Bool-cases (p x)) [
  | inl holds ↦ rw (f x holds) refl
  | inr fails ↦ elim (Bool-cases (q x)) [
    | inl yes' ↦ rw yes' refl
    | inr no' ↦ rw no' (any_mono p q xs f (rw fails at h))
  ]
]

is_available_mono :
    (a b : Runs) (o : Option ℕ)
    → Extends a b
    → is_available (run_at a o) ≡ true
    → is_available (run_at b o) ≡ true
is_available_mono a b none h k = absurd (ground arith)
is_available_mono a b (some i) h k = elim (Option-cases (a i)) [
  | inl gone ↦ absurd (ground (arith, rw gone at k))
  | inr (r, e) ↦ rw (h i r e) (rw e at k)
]

is_unavailable_mono :
    (a b : Runs) (o : Option ℕ)
    → Extends a b
    → is_unavailable (run_at a o) ≡ true
    → is_unavailable (run_at b o) ≡ true
is_unavailable_mono a b none h k = absurd (ground arith)
is_unavailable_mono a b (some i) h k = elim (Option-cases (a i)) [
  | inl gone ↦ absurd (ground (arith, rw gone at k))
  | inr (r, e) ↦ rw (h i r e) (rw e at k)
]

module _ (base : Base) (steps : List PlannedEnricher) (running : Running) (aborted : ℕ → Bool) where
  -- More runs do not change why a step has its run.
  pub Cause-mono :
      (a b : Runs) (s : PlannedEnricher) (r : EnricherRun)
      → Extends a b
      → Cause base steps running aborted a s r
      → Cause base steps running aborted b s r
  Cause-mono a b s r h (by_start k on valid then ready e) =
      by_start k on valid then
        (All-weaken s.dependencies (λ d k. is_available_mono a b (token_to_index steps d) h k)
          ready)
        e
  Cause-mono a b s r h (by_plan details invalid e) = by_plan details invalid e
  Cause-mono a b s r h (by_block k then blocked e) =
      by_block k then
        (any_mono (λ d. is_unavailable (run_of base steps a d))
          (λ d. is_unavailable (run_of base steps b d)) s.dependencies
          (λ d k. is_unavailable_mono a b (token_to_index steps d) h k) blocked)
        e
  Cause-mono a b s r h (by_cycle around e) = by_cycle around e
  Cause-mono a b s r h (by_abort k stop e) = by_abort k stop e

  -- The step is the first of its index, and it can be planned.
  abbrev pub Waits : PlannedEnricher → Type 0
  Waits s = (find_index s.index steps ≡ some s) × (plan_details base steps s ≡ none)

  -- Each member of a choice waits, and its run has a cause.
  abbrev pub Caused : Runs → Choice → Type 0
  Caused runs c = All (λ s. Waits s × Cause base steps running aborted runs s (c.run s)) c.members
