-- ===== src/Enrich/Plan/Cycle.antt =====
-- packages/core/src/inspect-async.ts: `findDependencyCycle`, a depth-first search. A step that is
-- being visited is one on the stack, here with its top first; the fuel bounds the stack's depth.
pub mod Members
pub mod Fuel
pub mod Stuck
pub mod Found
pub mod Sound
use linklint.Common.{
  Bool, List, Option, String, [], any, if◌then◌else◌, length, none, some, suc, zero, ℕ, ◌++◌, ◌==◌,
  ◌∷◌,
}
use linklint.Enrich.Plan.{PlannedEnricher, has_index, token_to_index}

pub data Visit : Type 0 where
  out_of_fuel : Visit
  found_cycle : List PlannedEnricher → Visit
  visited_all : List ℕ → Visit

abbrev pub member : ℕ → List ℕ → Bool
member i is = any (λ j. j == i) is

-- `stack.slice(stack.indexOf(index))`, of the stack with its top first.
abbrev pub slice_from : ℕ → List PlannedEnricher → List PlannedEnricher
slice_from i [] = []
slice_from i (s ∷ ss) =
    let rest = slice_from i ss in if s.index == i then s ∷ [] else rest ++ (s ∷ [])

abbrev pub find_index : ℕ → List PlannedEnricher → Option PlannedEnricher
find_index i [] = none
find_index i (s ∷ ss) = let rest = find_index i ss in if s.index == i then some s else rest

module _ (steps pending : List PlannedEnricher) where
  abbrev pub pending_at : Option ℕ → Option PlannedEnricher
  pending_at none = none
  pending_at (some i) = find_index i pending

  -- The prerequisite's step, where it is pending.
  abbrev pub pending_step : String → Option PlannedEnricher
  pending_step d = pending_at (token_to_index steps d)

  abbrev pub then_visit : Visit → (List ℕ → Visit) → Visit
  then_visit out_of_fuel rest = out_of_fuel
  then_visit (found_cycle c) rest = found_cycle c
  then_visit (visited_all visited) rest = rest visited

  abbrev pub at_prerequisite :
      (PlannedEnricher → List PlannedEnricher → List ℕ → Visit)
      → Option PlannedEnricher
      → List PlannedEnricher
      → List ℕ
      → Visit
  at_prerequisite visit none stack visited = visited_all visited
  at_prerequisite visit (some t) stack visited =
      if has_index t.index stack
      then found_cycle (slice_from t.index stack)
      else if member t.index visited
      then visited_all visited
      else visit t stack visited

  -- The loop over the prerequisites.
  unfoldable pub visit_prerequisites :
      (PlannedEnricher → List PlannedEnricher → List ℕ → Visit)
      → List String
      → List PlannedEnricher
      → List ℕ
      → Visit
  visit_prerequisites visit [] stack visited = visited_all visited
  visit_prerequisites visit (d ∷ ds) stack visited =
      then_visit (at_prerequisite visit (pending_step d) stack visited)
        (visit_prerequisites visit ds stack)

  unfoldable pub visit : ℕ → PlannedEnricher → List PlannedEnricher → List ℕ → Visit
  unfolding visit_prerequisites
  visit zero s stack visited = out_of_fuel
  visit (suc fuel) s stack visited =
      then_visit (visit_prerequisites (visit fuel) s.dependencies (s ∷ stack) visited)
        (λ after. visited_all (s.index ∷ after))

  abbrev pub visit_unseen : ℕ → PlannedEnricher → List ℕ → Visit
  visit_unseen fuel s visited =
      if member s.index visited then visited_all visited else visit fuel s [] visited

  -- The loop over the pending steps.
  unfoldable pub search_from : ℕ → List PlannedEnricher → List ℕ → Visit
  unfolding visit
  search_from fuel [] visited = visited_all visited
  search_from fuel (s ∷ ss) visited = then_visit (visit_unseen fuel s visited) (search_from fuel ss)

  abbrev pub cycle_in : Visit → List PlannedEnricher
  cycle_in out_of_fuel = []
  cycle_in (found_cycle c) = c
  cycle_in (visited_all visited) = []

  unfoldable pub find_dependency_cycle : List PlannedEnricher
  unfolding search_from
  find_dependency_cycle = cycle_in (search_from (suc (length pending)) pending [])
