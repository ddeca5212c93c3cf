-- ===== src/Enrich/Plan/Cycle/Stuck.antt =====
-- A search finds a cycle where each pending step waits for a pending one
-- (packages/core/src/inspect-async.ts).
use linklint.Common.{
  All, Bool, Bool-cases, List, Option-cases, String, [], any, false, inl, inr, is_empty, is_none,
  length, not, refl, suc, true, zero, ℕ, ◌∷◌, ◌≡◌,
}
use linklint.Enrich.Plan.{PlannedEnricher, has_index, token_to_index}
use linklint.Enrich.Plan.Cycle.{
  Visit, cycle_in, find_dependency_cycle, found_cycle, out_of_fuel, pending_step, search_from,
  then_visit, visit, visit_prerequisites, visited_all,
}
use linklint.Enrich.Plan.Cycle.Members.{OnCycle, pending_at-All, search_from-OnCycle}
use linklint.Enrich.Plan.Cycle.Fuel.{find_dependency_cycle-Ends, is_out}

is_all : Visit → Bool
is_all out_of_fuel = false
is_all (found_cycle c) = false
is_all (visited_all visited) = true

module _ (steps pending : List PlannedEnricher) where
  -- The prerequisite is a pending step.
  abbrev pub is_pending : String → Bool
  is_pending d = not (is_none (pending_step steps pending d))

  -- The step waits for a pending one.
  abbrev pub IsStuck : PlannedEnricher → Type 0
  IsStuck s = any is_pending s.dependencies ≡ true

  module _ (stuck : All IsStuck pending) where
    then_visit-found :
        (v : Visit) (rest : List ℕ → Visit)
        → is_all v ≡ false
        → is_all (then_visit steps pending v rest) ≡ false
    unfolding is_all
    then_visit-found out_of_fuel rest h = refl
    then_visit-found (found_cycle c) rest h = refl
    then_visit-found (visited_all visited) rest h = cc

    visit_prerequisites-found :
        (go : PlannedEnricher → List PlannedEnricher → List ℕ → Visit) (ds : List String)
        (stack : List PlannedEnricher)
        → ((t : PlannedEnricher) → IsStuck t → is_all (go t stack []) ≡ false)
        → any is_pending ds ≡ true
        → is_all (visit_prerequisites steps pending go ds stack []) ≡ false
    unfolding visit_prerequisites is_all
    visit_prerequisites-found go [] stack k h = cc
    visit_prerequisites-found go (d ∷ ds) stack k h =
        elim (Option-cases (pending_step steps pending d)) [
          | inl gone ↦ rw gone (visit_prerequisites-found go ds stack k (rw gone at h))
          | inr (t, e) ↦ elim (Bool-cases (has_index t.index stack)) [
            | inl busy ↦ rw (e, busy) refl
            | inr free ↦
                rw (e, free)
                  (then_visit-found (go t stack []) (visit_prerequisites steps pending go ds stack)
                    (k t (pending_at-All IsStuck steps pending (token_to_index steps d) t stuck e)))
          ]
        ]

    visit-found :
        (fuel : ℕ) (stack : List PlannedEnricher) (s : PlannedEnricher)
        → IsStuck s
        → is_all (visit steps pending fuel s stack []) ≡ false
    unfolding visit is_all
    visit-found zero stack s h = refl
    visit-found (suc fuel) stack s h =
        then_visit-found
          (visit_prerequisites steps pending (visit steps pending fuel) s.dependencies (s ∷ stack)
            [])
          (λ after. visited_all (s.index ∷ after))
          (visit_prerequisites-found (visit steps pending fuel) s.dependencies (s ∷ stack)
            (visit-found fuel (s ∷ stack)) h)

    search_from-found :
        (fuel : ℕ) (ss : List PlannedEnricher)
        → is_empty ss ≡ false
        → All IsStuck ss
        → is_all (search_from steps pending fuel ss []) ≡ false
    unfolding search_from
    search_from-found fuel [] h k = cc
    search_from-found fuel (s ∷ ss) h k =
        then_visit-found (visit steps pending fuel s [] []) (search_from steps pending fuel ss)
          (visit-found fuel [] s k.0)

    cycle_in-nonempty :
        (v : Visit)
        → is_out v ≡ false
        → is_all v ≡ false
        → OnCycle IsStuck v
        → is_empty (cycle_in steps pending v) ≡ false
    unfolding is_all
    cycle_in-nonempty out_of_fuel h k c = cc
    cycle_in-nonempty (found_cycle c) h k on = on.0
    cycle_in-nonempty (visited_all visited) h k c = cc

    pub find_dependency_cycle-nonempty :
        is_empty pending ≡ false → is_empty (find_dependency_cycle steps pending) ≡ false
    unfolding find_dependency_cycle
    find_dependency_cycle-nonempty h =
        cycle_in-nonempty (search_from steps pending (suc (length pending)) pending [])
          (find_dependency_cycle-Ends steps pending)
          (search_from-found (suc (length pending)) pending h stuck)
          (search_from-OnCycle IsStuck steps pending stuck (suc (length pending)) pending [] stuck)
