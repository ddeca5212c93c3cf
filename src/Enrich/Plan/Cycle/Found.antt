-- ===== src/Enrich/Plan/Cycle/Found.antt =====
-- A prerequisite on the stack closes a cycle of prerequisites (packages/core/src/inspect-async.ts).
use mathlib.Core.Path.{subst}
use mathlib.Core.Option.{some_inj}
use linklint.Common.{
  ==_iff, All, All-append, Bool, Bool-cases, List, Option, [], any, false, inl, inr, none, refl,
  some, sym, true, ℕ, ◌==◌, ◌∙◌, ◌∷◌, ◌≡◌, ◌⊎◌,
}
use linklint.Enrich.Plan.{PlannedEnricher, has_index, token_to_index}
use linklint.Enrich.Plan.Cycle.{find_index, slice_from}

-- The token stands for the step of the index.
abbrev pub names_index : ℕ → Option ℕ → Bool
names_index i none = false
names_index i (some j) = j == i

module _ (steps : List PlannedEnricher) where
  -- The step has the one of the index as a prerequisite.
  abbrev pub needs : PlannedEnricher → ℕ → Bool
  needs s i = any (λ d. names_index i (token_to_index steps d)) s.dependencies

  -- The step is that of its index in the plan.
  abbrev pub IsPlaced : PlannedEnricher → Type 0
  IsPlaced s = find_index s.index steps ≡ some s

  -- The step has the one of the index as a prerequisite, or has one that depends on it.
  pub data DependsOn : PlannedEnricher → ℕ → Type 0 where
    directly : {s : PlannedEnricher} {i : ℕ} → needs s i ≡ true → DependsOn s i
    through :
        {s : PlannedEnricher} {i : ℕ} (t : PlannedEnricher)
        → needs s t.index ≡ true
        → IsPlaced t
        → DependsOn t i
        → DependsOn s i

  -- The step is on a cycle of prerequisites.
  abbrev pub OnItself : PlannedEnricher → Type 0
  OnItself s = DependsOn s s.index

  depends_trans :
      {s : PlannedEnricher} {i j : ℕ} (t : PlannedEnricher)
      → find_index i steps ≡ some t
      → t.index ≡ i
      → DependsOn s i
      → DependsOn t j
      → DependsOn s j
  depends_trans {s} {i} {j} t at e (directly n) d =
      through t (subst (λ k. needs s k ≡ true) (sym e) n)
        (subst (λ k. find_index k steps ≡ some t) (sym e) at) d
  depends_trans t at e (through u n p more) d = through u n p (depends_trans t at e more d)

  -- On the stack, its top first, each step has the one above it as a prerequisite.
  abbrev Below : PlannedEnricher → List PlannedEnricher → Type 0
  Below s [] = Unit
  Below s (u ∷ us) = needs u s.index ≡ true

  abbrev pub Stacked : List PlannedEnricher → Type 0
  Stacked [] = Unit
  Stacked (s ∷ ss) = Below s ss × Stacked ss

  -- Each step of the slice depends on that of the index, if the top does.
  slice_from-up :
      (i : ℕ) (s : PlannedEnricher) (ss : List PlannedEnricher)
      → Stacked (s ∷ ss)
      → All IsPlaced (s ∷ ss)
      → DependsOn s i
      → All (λ x. DependsOn x i) (slice_from i (s ∷ ss))
  slice_from-up i s [] stacked placed top = elim (Bool-cases (s.index == i)) [
    | inl same ↦ rw same (top, tt)
    | inr other ↦ rw other (top, tt)
  ]
  slice_from-up i s (u ∷ us) stacked placed top = elim (Bool-cases (s.index == i)) [
    | inl same ↦ rw same (top, tt)
    | inr other ↦ rw other (
        All-append (λ x. DependsOn x i) (slice_from i (u ∷ us)) (s ∷ [])
          (slice_from-up i u us stacked.1 placed.1 (through s (stacked.0) (placed.0) top))
          (top, tt))
  ]

  -- The step of the index, from which each step of the slice but itself is reached.
  record Bottom (i : ℕ) (s : PlannedEnricher) (slice : List PlannedEnricher) : Type 0 where
    step : PlannedEnricher
    placed : find_index i steps ≡ some step
    index : step.index ≡ i
    reaches : All (λ x. (x.index ≡ i) ⊎ DependsOn step x.index) slice
    top : (s.index ≡ i) ⊎ DependsOn step s.index

  above_bottom :
      (i : ℕ) (s u t : PlannedEnricher)
      → needs u s.index ≡ true
      → IsPlaced u
      → find_index i steps ≡ some t
      → t.index ≡ i
      → (u.index ≡ i) ⊎ DependsOn t u.index
      → DependsOn t s.index
  above_bottom i s u t n p at e (inl same) =
      let here : find_index i steps ≡ some u = subst (λ k. find_index k steps ≡ some u) same p in
      let one : u ≡ t = some_inj.0 (sym here ∙ at) in
      subst (λ x. DependsOn x s.index) one (directly n)
  above_bottom i s u t n p at e (inr d) = depends_trans u p refl d (directly n)

  bottom : (i : ℕ) (s : PlannedEnricher) → (s.index == i) ≡ true → IsPlaced s → Bottom i s (s ∷ [])
  bottom i s same p =
      let e = (==_iff s.index i).0 same in
      record {
        step = s;
        placed = subst (λ k. find_index k steps ≡ some s) e p;
        index = e;
        reaches = (inl e, tt);
        top = inl e;
      }

  slice_from-down :
      (i : ℕ) (s : PlannedEnricher) (ss : List PlannedEnricher)
      → Stacked (s ∷ ss)
      → All IsPlaced (s ∷ ss)
      → has_index i (s ∷ ss) ≡ true
      → Bottom i s (slice_from i (s ∷ ss))
  slice_from-down i s [] stacked placed h = elim (Bool-cases (s.index == i)) [
    | inl same ↦ rw same (bottom i s same placed.0)
    | inr other ↦ let f = rw other at h in cc
  ]
  slice_from-down i s (u ∷ us) stacked placed h = elim (Bool-cases (s.index == i)) [
    | inl same ↦ rw same (bottom i s same placed.0)
    | inr other ↦
        let b = slice_from-down i u us stacked.1 placed.1 (rw other at h) in
        let d = above_bottom i s u b.step stacked.0 (placed.1.0) b.placed b.index b.top in
        rw other (record {
          step = b.step;
          placed = b.placed;
          index = b.index;
          reaches =
              All-append (λ x. (x.index ≡ i) ⊎ DependsOn b.step x.index) (slice_from i (u ∷ us))
                (s ∷ []) b.reaches (inr d, tt);
          top = inr d;
        })
  ]

  around :
      (i : ℕ) (t : PlannedEnricher) (xs : List PlannedEnricher)
      → find_index i steps ≡ some t
      → t.index ≡ i
      → All (λ x. DependsOn x i) xs
      → All (λ x. (x.index ≡ i) ⊎ DependsOn t x.index) xs
      → All OnItself xs
  around i t [] at e h k = tt
  around i t (x ∷ xs) at e h (inl same, k) =
      (subst (DependsOn x) (sym same) (h.0), around i t xs at e h.1 k)
  around i t (x ∷ xs) at e h (inr d, k) = (depends_trans t at e (h.0) d, around i t xs at e h.1 k)

  pub slice_from-OnItself :
      (i : ℕ) (s : PlannedEnricher) (ss : List PlannedEnricher)
      → Stacked (s ∷ ss)
      → All IsPlaced (s ∷ ss)
      → needs s i ≡ true
      → has_index i (s ∷ ss) ≡ true
      → All OnItself (slice_from i (s ∷ ss))
  slice_from-OnItself i s ss stacked placed n h =
      let b = slice_from-down i s ss stacked placed h in
      around i b.step (slice_from i (s ∷ ss)) b.placed b.index
        (slice_from-up i s ss stacked placed (directly n)) b.reaches
