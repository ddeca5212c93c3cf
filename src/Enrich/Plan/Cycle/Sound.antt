-- ===== src/Enrich/Plan/Cycle/Sound.antt =====
-- What the search returns is a cycle of prerequisites (packages/core/src/inspect-async.ts).
use mathlib.Core.Path.{subst}
use mathlib.Core.Option.{some_inj}
use linklint.Common.{
  ==_iff, All, Bool, Bool-cases, List, Option, String, [], any, arith, inl, inr, length, none, refl,
  some, suc, true, zero, ℕ, ◌==◌, ◌∷◌, ◌≡◌,
}
use linklint.Enrich.Plan.{PlannedEnricher, has_index, token_to_index}
use linklint.Enrich.Plan.Cycle.{
  Visit, at_prerequisite, cycle_in, find_dependency_cycle, find_index, found_cycle, member,
  out_of_fuel, pending_at, pending_step, search_from, then_visit, visit, visit_prerequisites,
  visited_all,
}
use linklint.Enrich.Plan.Rounds.Settles.{All-weaken}
use linklint.Enrich.Plan.Cycle.Members.{pending_at-All}
use linklint.Enrich.Plan.Cycle.Found.{
  IsPlaced, OnItself, Stacked, names_index, needs, slice_from-OnItself,
}

module _ (steps : List PlannedEnricher) where
  abbrev IsSound : Visit → Type 0
  IsSound out_of_fuel = Unit
  IsSound (found_cycle c) = All (OnItself steps) c
  IsSound (visited_all visited) = Unit

  any-each :
      {A B : Type 0} (p : B → A → Bool) (xs : List A)
      → All (λ x. (b : B) → p b x ≡ true → any (p b) xs ≡ true) xs
  any-each p [] = tt
  any-each p (x ∷ xs) =
      (λ b h. rw h refl, All-weaken xs (λ y k b h. ground (arith, k b h)) (any-each p xs))

  find_index-index :
      (i : ℕ) (ss : List PlannedEnricher) (t : PlannedEnricher)
      → find_index i ss ≡ some t
      → t.index ≡ i
  find_index-index i [] t e = absurd (ground arith)
  find_index-index i (s ∷ ss) t e = elim (Bool-cases (s.index == i)) [
    | inl same ↦
        let one : s ≡ t = some_inj.0 (rw same at e) in
        subst (λ (x : PlannedEnricher). x.index ≡ i) one ((==_iff s.index i).0 same)
    | inr other ↦ find_index-index i ss t (rw other at e)
  ]

  module _ (pending : List PlannedEnricher) (all_placed : All (IsPlaced steps) pending) where
    pending_at-names :
        (o : Option ℕ) (t : PlannedEnricher)
        → pending_at steps pending o ≡ some t
        → names_index t.index o ≡ true
    pending_at-names none t e = absurd (ground arith)
    pending_at-names (some i) t e = ground (arith, find_index-index i pending t e)

    -- The step's prerequisites among those of the list.
    abbrev Needed : PlannedEnricher → List String → Type 0
    Needed s ds =
        All
          (λ d.
            (t : PlannedEnricher)
            → pending_step steps pending d ≡ some t
            → needs steps s t.index ≡ true)
          ds

    needed : (s : PlannedEnricher) → Needed s s.dependencies
    needed s =
        All-weaken s.dependencies
          (λ d k t e. k t.index (pending_at-names (token_to_index steps d) t e))
          (any-each (λ i d. names_index i (token_to_index steps d)) s.dependencies)

    then_visit-IsSound :
        (v : Visit) (rest : List ℕ → Visit)
        → IsSound v
        → ((visited : List ℕ) → IsSound (rest visited))
        → IsSound (then_visit steps pending v rest)
    then_visit-IsSound out_of_fuel rest h k = h
    then_visit-IsSound (found_cycle c) rest h k = h
    then_visit-IsSound (visited_all visited) rest h k = k visited

    -- A visit of a step is sound where the stack leads to it.
    abbrev Sound : (PlannedEnricher → List PlannedEnricher → List ℕ → Visit) → Type 0
    Sound go =
        (s : PlannedEnricher) (stack : List PlannedEnricher) (visited : List ℕ)
        → Stacked steps (s ∷ stack)
        → All (IsPlaced steps) (s ∷ stack)
        → IsSound (go s stack visited)

    at_prerequisite-IsSound :
        (go : PlannedEnricher → List PlannedEnricher → List ℕ → Visit) (o : Option PlannedEnricher)
        (s : PlannedEnricher) (ss : List PlannedEnricher) (visited : List ℕ)
        → Sound go
        → ((t : PlannedEnricher) → o ≡ some t → (needs steps s t.index ≡ true) × IsPlaced steps t)
        → Stacked steps (s ∷ ss)
        → All (IsPlaced steps) (s ∷ ss)
        → IsSound (at_prerequisite steps pending go o (s ∷ ss) visited)
    at_prerequisite-IsSound go none s ss visited k h stacked placed = tt
    at_prerequisite-IsSound go (some t) s ss visited k h stacked placed =
        elim (Bool-cases (has_index t.index (s ∷ ss))) [
          | inl busy ↦
              rw busy (slice_from-OnItself steps t.index s ss stacked placed ((h t refl).0) busy)
          | inr free ↦ elim (Bool-cases (member t.index visited)) [
            | inl seen ↦ rw (free, seen) tt
            | inr new ↦
                rw (free, new) (k t (s ∷ ss) visited ((h t refl).0, stacked) ((h t refl).1, placed))
          ]
        ]

    visit_prerequisites-IsSound :
        (go : PlannedEnricher → List PlannedEnricher → List ℕ → Visit) (ds : List String)
        (s : PlannedEnricher) (ss : List PlannedEnricher) (visited : List ℕ)
        → Sound go
        → Needed s ds
        → Stacked steps (s ∷ ss)
        → All (IsPlaced steps) (s ∷ ss)
        → IsSound (visit_prerequisites steps pending go ds (s ∷ ss) visited)
    unfolding visit_prerequisites
    visit_prerequisites-IsSound go [] s ss visited k h stacked placed = tt
    visit_prerequisites-IsSound go (d ∷ ds) s ss visited k h stacked placed =
        then_visit-IsSound
          (at_prerequisite steps pending go (pending_step steps pending d) (s ∷ ss) visited)
          (visit_prerequisites steps pending go ds (s ∷ ss))
          (at_prerequisite-IsSound go (pending_step steps pending d) s ss visited k
            (λ t e. (
              h.0 t e,
              pending_at-All (IsPlaced steps) steps pending (token_to_index steps d) t all_placed e,
            ))
            stacked placed)
          (λ after. visit_prerequisites-IsSound go ds s ss after k h.1 stacked placed)

    visit-IsSound : (fuel : ℕ) → Sound (visit steps pending fuel)
    unfolding visit
    visit-IsSound zero s stack visited stacked placed = tt
    visit-IsSound (suc fuel) s stack visited stacked placed =
        then_visit-IsSound
          (visit_prerequisites steps pending (visit steps pending fuel) s.dependencies (s ∷ stack)
            visited)
          (λ after. visited_all (s.index ∷ after))
          (visit_prerequisites-IsSound (visit steps pending fuel) s.dependencies s stack visited
            (visit-IsSound fuel) (needed s) stacked placed)
          (λ after. tt)

    search_from-IsSound :
        (fuel : ℕ) (ss : List PlannedEnricher) (visited : List ℕ)
        → All (IsPlaced steps) ss
        → IsSound (search_from steps pending fuel ss visited)
    unfolding search_from
    search_from-IsSound fuel [] visited h = tt
    search_from-IsSound fuel (s ∷ ss) visited h = elim (Bool-cases (member s.index visited)) [
      | inl seen ↦ rw seen (search_from-IsSound fuel ss visited h.1)
      | inr new ↦ rw new (
          then_visit-IsSound (visit steps pending fuel s [] visited)
            (search_from steps pending fuel ss) (visit-IsSound fuel s [] visited (tt, tt) (h.0, tt))
            (λ after. search_from-IsSound fuel ss after h.1))
    ]

    cycle_in-OnItself : (v : Visit) → IsSound v → All (OnItself steps) (cycle_in steps pending v)
    cycle_in-OnItself out_of_fuel h = tt
    cycle_in-OnItself (found_cycle c) h = h
    cycle_in-OnItself (visited_all visited) h = tt

    -- Each step that is returned has itself among the prerequisites that it leads to.
    pub find_dependency_cycle-OnItself : All (OnItself steps) (find_dependency_cycle steps pending)
    unfolding find_dependency_cycle
    find_dependency_cycle-OnItself =
        cycle_in-OnItself (search_from steps pending (suc (length pending)) pending [])
          (search_from-IsSound (suc (length pending)) pending [] all_placed)
