-- ===== src/Enrich/Plan/Cycle/Members.antt =====
-- What the search for a cycle returns (packages/core/src/inspect-async.ts).
use mathlib.Core.Path.{subst}
use mathlib.Core.Option.{some_inj}
use linklint.Common.{
  All, All-append, Bool-cases, List, Option, String, [], arith, false, inl, inr, is_empty, length,
  none, refl, some, suc, true, zero, ℕ, ◌++◌, ◌==◌, ◌∷◌, ◌≡◌,
}
use linklint.Enrich.Plan.{PlannedEnricher, has_index, token_to_index}
use linklint.Enrich.Plan.Cycle.{
  Visit, at_prerequisite, cycle_in, find_dependency_cycle, find_index, found_cycle, member,
  out_of_fuel, pending_at, pending_step, search_from, slice_from, then_visit, visit,
  visit_prerequisites, visited_all,
}

module _ (P : PlannedEnricher → Type 0) where
  -- A cycle that is found has a member, and all of them have the property.
  abbrev pub OnCycle : Visit → Type 0
  OnCycle out_of_fuel = Unit {0}
  OnCycle (found_cycle c) = (is_empty c ≡ false) × All P c
  OnCycle (visited_all visited) = Unit {0}

  find_index-All :
      (i : ℕ) (ss : List PlannedEnricher) (t : PlannedEnricher)
      → All P ss
      → find_index i ss ≡ some t
      → P t
  find_index-All i [] t h e = absurd (ground arith)
  find_index-All i (s ∷ ss) t h e = elim (Bool-cases (s.index == i)) [
    | inl same ↦ subst P (some_inj.0 (rw same at e)) (h.0)
    | inr other ↦ find_index-All i ss t h.1 (rw other at e)
  ]

  pub pending_at-All :
      (steps pending : List PlannedEnricher) (o : Option ℕ) (t : PlannedEnricher)
      → All P pending
      → pending_at steps pending o ≡ some t
      → P t
  pending_at-All steps pending none t h e = absurd (ground arith)
  pending_at-All steps pending (some i) t h e = find_index-All i pending t h e

  snoc-nonempty : {A : Type 0} (xs : List A) (x : A) → is_empty (xs ++ (x ∷ [])) ≡ false
  snoc-nonempty [] x = refl
  snoc-nonempty (y ∷ ys) x = refl

  slice_from-OnCycle :
      (i : ℕ) (stack : List PlannedEnricher)
      → All P stack
      → has_index i stack ≡ true
      → OnCycle (found_cycle (slice_from i stack))
  slice_from-OnCycle i [] h e = absurd (ground arith)
  slice_from-OnCycle i (s ∷ ss) h e = elim (Bool-cases (s.index == i)) [
    | inl same ↦ rw same (refl, (h.0, tt))
    | inr other ↦
        let (n, rest) = slice_from-OnCycle i ss h.1 (rw other at e) in
        rw other (
          snoc-nonempty (slice_from i ss) s,
          All-append P (slice_from i ss) (s ∷ []) rest (h.0, tt),
        )
  ]

  module _ (steps pending : List PlannedEnricher) (all_pending : All P pending) where
    then_visit-OnCycle :
        (v : Visit) (rest : List ℕ → Visit)
        → OnCycle v
        → ((visited : List ℕ) → OnCycle (rest visited))
        → OnCycle (then_visit steps pending v rest)
    then_visit-OnCycle out_of_fuel rest h k = h
    then_visit-OnCycle (found_cycle c) rest h k = h
    then_visit-OnCycle (visited_all visited) rest h k = k visited

    abbrev Keeps : (PlannedEnricher → List PlannedEnricher → List ℕ → Visit) → Type 0
    Keeps visiting =
        (s : PlannedEnricher) (stack : List PlannedEnricher) (visited : List ℕ)
        → P s
        → All P stack
        → OnCycle (visiting s stack visited)

    at_prerequisite-OnCycle :
        (visiting : PlannedEnricher → List PlannedEnricher → List ℕ → Visit)
        (o : Option PlannedEnricher) (stack : List PlannedEnricher) (visited : List ℕ)
        → Keeps visiting
        → ((t : PlannedEnricher) → o ≡ some t → P t)
        → All P stack
        → OnCycle (at_prerequisite steps pending visiting o stack visited)
    at_prerequisite-OnCycle visiting none stack visited k h a = tt
    at_prerequisite-OnCycle visiting (some t) stack visited k h a =
        elim (Bool-cases (has_index t.index stack)) [
          | inl on ↦ rw on (slice_from-OnCycle t.index stack a on)
          | inr off ↦ elim (Bool-cases (member t.index visited)) [
            | inl seen ↦ rw (off, seen) (tt)
            | inr new ↦ rw (off, new) (k t stack visited (h t refl) a)
          ]
        ]

    visit_prerequisites-OnCycle :
        (visiting : PlannedEnricher → List PlannedEnricher → List ℕ → Visit) (ds : List String)
        (stack : List PlannedEnricher) (visited : List ℕ)
        → Keeps visiting
        → All P stack
        → OnCycle (visit_prerequisites steps pending visiting ds stack visited)
    unfolding visit_prerequisites
    visit_prerequisites-OnCycle visiting [] stack visited k a = tt
    visit_prerequisites-OnCycle visiting (d ∷ ds) stack visited k a =
        then_visit-OnCycle
          (at_prerequisite steps pending visiting (pending_step steps pending d) stack visited)
          (visit_prerequisites steps pending visiting ds stack)
          (at_prerequisite-OnCycle visiting (pending_step steps pending d) stack visited k
            (λ t e. pending_at-All steps pending (token_to_index steps d) t all_pending e) a)
          (λ after. visit_prerequisites-OnCycle visiting ds stack after k a)

    visit-OnCycle : (fuel : ℕ) → Keeps (visit steps pending fuel)
    unfolding visit
    visit-OnCycle zero s stack visited p a = tt
    visit-OnCycle (suc fuel) s stack visited p a =
        then_visit-OnCycle
          (visit_prerequisites steps pending (visit steps pending fuel) s.dependencies (s ∷ stack)
            visited)
          (λ after. visited_all (s.index ∷ after))
          (visit_prerequisites-OnCycle (visit steps pending fuel) s.dependencies (s ∷ stack) visited
            (visit-OnCycle fuel) (p, a))
          (λ after. tt)

    pub search_from-OnCycle :
        (fuel : ℕ) (ss : List PlannedEnricher) (visited : List ℕ)
        → All P ss
        → OnCycle (search_from steps pending fuel ss visited)
    unfolding search_from
    search_from-OnCycle fuel [] visited a = tt
    search_from-OnCycle fuel (s ∷ ss) visited a = elim (Bool-cases (member s.index visited)) [
      | inl seen ↦ rw seen (search_from-OnCycle fuel ss visited a.1)
      | inr new ↦ rw new (
          then_visit-OnCycle (visit steps pending fuel s [] visited)
            (search_from steps pending fuel ss) (visit-OnCycle fuel s [] visited a.0 tt)
            (λ after. search_from-OnCycle fuel ss after a.1))
    ]

    from_cycle : (v : Visit) → OnCycle v → All P (cycle_in steps pending v)
    from_cycle out_of_fuel h = tt
    from_cycle (found_cycle c) h = h.1
    from_cycle (visited_all visited) h = tt

    -- The members of the cycle are pending steps.
    pub find_dependency_cycle-All : All P (find_dependency_cycle steps pending)
    unfolding find_dependency_cycle
    find_dependency_cycle-All =
        from_cycle (search_from steps pending (suc (length pending)) pending [])
          (search_from-OnCycle (suc (length pending)) pending [] all_pending)
