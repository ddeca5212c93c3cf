-- ===== src/Enrich/Plan/Cycle/Fuel.antt =====
-- The search for a cycle has fuel enough (packages/core/src/inspect-async.ts).
use linklint.Common.{
  ==_iff, All, Bool, Bool-cases, List, Option, String, [], arith, false, inl, inr, length, none,
  refl, some, suc, true, zero, ℕ, ◌<◌, ◌==◌, ◌∷◌, ◌≡◌, ◌≤◌,
}
use linklint.Enrich.Plan.{PlannedEnricher, has_index, keep, token_to_index}
use linklint.Enrich.Plan.Cycle.{
  Visit, at_prerequisite, found_cycle, member, out_of_fuel, pending_step, search_from, then_visit,
  visit, visit_prerequisites, visit_unseen, visited_all,
}
use linklint.Enrich.Plan.Cycle.Members.{pending_at-All}
use linklint.Enrich.Plan.Rounds.Settles.{has_index-All, keep-le, outside}

abbrev pub is_out : Visit → Bool
is_out out_of_fuel = true
is_out (found_cycle c) = false
is_out (visited_all visited) = false

-- The steps that are not on the stack.
left : List PlannedEnricher → List PlannedEnricher → ℕ
left stack ss = length (keep (outside stack) ss)

left-le :
    (s : PlannedEnricher) (stack ss : List PlannedEnricher) → left (s ∷ stack) ss ≤ left stack ss
unfolding left
left-le s stack [] = omega arith
left-le s stack (t ∷ ss) = ground (arith, left-le s stack ss)

left-lt :
    (s : PlannedEnricher) (stack ss : List PlannedEnricher)
    → has_index s.index ss ≡ true
    → has_index s.index stack ≡ false
    → left (s ∷ stack) ss < left stack ss
unfolding left
left-lt s stack [] h k = absurd (ground arith)
left-lt s stack (t ∷ ss) h k = elim (Bool-cases (t.index == s.index)) [
  | inl same ↦
      let out : has_index t.index stack ≡ false = rw ((==_iff t.index s.index).0 same) k in
      let at : (s.index == t.index) ≡ true = rw ((==_iff t.index s.index).0 same) (ground arith) in
      rw (out, at) (omega (arith, left-le s stack ss))
  | inr other ↦ ground (arith, left-lt s stack ss (rw other at h) k)
]

module _ (steps pending : List PlannedEnricher) where
  then_visit-Ends :
      (v : Visit) (rest : List ℕ → Visit)
      → is_out v ≡ false
      → ((visited : List ℕ) → is_out (rest visited) ≡ false)
      → is_out (then_visit steps pending v rest) ≡ false
  then_visit-Ends out_of_fuel rest h k = h
  then_visit-Ends (found_cycle c) rest h k = refl
  then_visit-Ends (visited_all visited) rest h k = k visited

  -- A visit ends for each pending step that is not on the stack.
  abbrev Ends :
      (PlannedEnricher → List PlannedEnricher → List ℕ → Visit) → List PlannedEnricher → Type 0
  Ends go stack =
      (t : PlannedEnricher) (visited : List ℕ)
      → has_index t.index pending ≡ true
      → has_index t.index stack ≡ false
      → is_out (go t stack visited) ≡ false

  at_prerequisite-Ends :
      (go : PlannedEnricher → List PlannedEnricher → List ℕ → Visit) (o : Option PlannedEnricher)
      (stack : List PlannedEnricher) (visited : List ℕ)
      → Ends go stack
      → ((t : PlannedEnricher) → o ≡ some t → has_index t.index pending ≡ true)
      → is_out (at_prerequisite steps pending go o stack visited) ≡ false
  at_prerequisite-Ends go none stack visited h k = refl
  at_prerequisite-Ends go (some t) stack visited h k = elim (Bool-cases (has_index t.index stack)) [
    | inl busy ↦ rw busy refl
    | inr free ↦ elim (Bool-cases (member t.index visited)) [
      | inl seen ↦ rw (free, seen) refl
      | inr fresh ↦ rw (free, fresh) (h t visited (k t refl) free)
    ]
  ]

  visit_prerequisites-Ends :
      (go : PlannedEnricher → List PlannedEnricher → List ℕ → Visit) (ds : List String)
      (stack : List PlannedEnricher) (visited : List ℕ)
      → Ends go stack
      → is_out (visit_prerequisites steps pending go ds stack visited) ≡ false
  unfolding visit_prerequisites
  visit_prerequisites-Ends go [] stack visited h = refl
  visit_prerequisites-Ends go (d ∷ ds) stack visited h =
      then_visit-Ends
        (at_prerequisite steps pending go (pending_step steps pending d) stack visited)
        (visit_prerequisites steps pending go ds stack)
        (at_prerequisite-Ends go (pending_step steps pending d) stack visited h (λ t e.
          pending_at-All (λ s. has_index s.index pending ≡ true) steps pending
            (token_to_index steps d) t (has_index-All pending) e))
        (λ after. visit_prerequisites-Ends go ds stack after h)

  visit-Ends :
      (fuel : ℕ) (stack : List PlannedEnricher)
      → left stack pending < fuel
      → Ends (visit steps pending fuel) stack
  unfolding visit
  visit-Ends zero stack h = absurd (omega arith)
  visit-Ends (suc fuel) stack h = λ s visited p free.
      then_visit-Ends
        (visit_prerequisites steps pending (visit steps pending fuel) s.dependencies (s ∷ stack)
          visited)
        (λ after. visited_all (s.index ∷ after))
        (visit_prerequisites-Ends (visit steps pending fuel) s.dependencies (s ∷ stack) visited
          (visit-Ends fuel (s ∷ stack) (omega (arith, left-lt s stack pending p free))))
        (λ after. refl)

  visit_unseen-Ends :
      (fuel : ℕ) (s : PlannedEnricher) (visited : List ℕ)
      → left [] pending < fuel
      → has_index s.index pending ≡ true
      → is_out (visit_unseen steps pending fuel s visited) ≡ false
  visit_unseen-Ends fuel s visited h p = elim (Bool-cases (member s.index visited)) [
    | inl seen ↦ rw seen refl
    | inr fresh ↦ rw fresh (visit-Ends fuel [] h s visited p refl)
  ]

  search_from-Ends :
      (fuel : ℕ) (ss : List PlannedEnricher) (visited : List ℕ)
      → left [] pending < fuel
      → All (λ s. has_index s.index pending ≡ true) ss
      → is_out (search_from steps pending fuel ss visited) ≡ false
  unfolding search_from
  search_from-Ends fuel [] visited h k = refl
  search_from-Ends fuel (s ∷ ss) visited h k =
      then_visit-Ends (visit_unseen steps pending fuel s visited)
        (search_from steps pending fuel ss) (visit_unseen-Ends fuel s visited h k.0)
        (λ after. search_from-Ends fuel ss after h k.1)

  -- The depth-first search for a cycle never needs more calls on the stack than there are pending
  -- steps and one: with this fuel it always ends, with a cycle or with all steps visited.
  pub find_dependency_cycle-Ends :
      is_out (search_from steps pending (suc (length pending)) pending []) ≡ false
  unfolding left
  find_dependency_cycle-Ends =
      search_from-Ends (suc (length pending)) pending []
        (omega (arith, keep-le (outside []) pending)) (has_index-All pending)
