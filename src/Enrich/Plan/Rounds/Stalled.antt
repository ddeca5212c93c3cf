-- ===== src/Enrich/Plan/Rounds/Stalled.antt =====
-- Where no pending step is ready and none is blocked, each waits for a pending one
-- (packages/core/src/inspect-async.ts).
use mathlib.Core.Path.{subst}
use mathlib.Core.Option.{some_inj}
use linklint.Common.{
  All, Bool, Bool-cases, List, Option-cases, String, [], all, any, arith, false, inl, inr, is_empty,
  is_none, ltb, none, refl, some, str_eq, true, ℕ, ◌==◌, ◌∷◌, ◌≡◌,
}
use linklint.Enrich.{Base, run_is_available}
use linklint.Enrich.Plan.{
  PlannedEnricher, State, find_token, has_index, is_available, is_blocked, is_ready, is_unavailable,
  keep, keep_texts, plan_details, run_of, token_count, token_to_index, unknown_details,
}
use linklint.Enrich.Plan.Cycle.{find_index}
use linklint.Enrich.Plan.Cycle.Stuck.{IsStuck, is_pending}
use linklint.Enrich.Plan.Rounds.{Running}
use linklint.Enrich.Plan.Rounds.Causes.{Waits}
use linklint.Enrich.Plan.Rounds.Settles.{All-both, All-weaken}
use linklint.Enrich.Plan.Rounds.Total.{Covered}

keep-none :
    (p : PlannedEnricher → Bool) (ss : List PlannedEnricher)
    → is_empty (keep p ss) ≡ true
    → All (λ s. p s ≡ false) ss
keep-none p [] h = tt
keep-none p (s ∷ ss) h = elim (Bool-cases (p s)) [
  | inl kept ↦ let f = rw kept at h in cc
  | inr dropped ↦ (dropped, keep-none p ss (rw dropped at h))
]

find_token-All :
    (P : ℕ → Type 0) (token : String) (ss : List PlannedEnricher) (i : ℕ)
    → All (λ s. P s.index) ss
    → find_token token ss ≡ some i
    → P i
find_token-All P token [] i h e = absurd (ground arith)
find_token-All P token (s ∷ ss) i h e = elim (Bool-cases (str_eq s.token token)) [
  | inl same ↦ subst P (some_inj.0 (rw same at e)) (h.0)
  | inr other ↦ find_token-All P token ss i h.1 (rw other at e)
]

token_to_index-All :
    (P : ℕ → Type 0) (steps : List PlannedEnricher) (token : String) (i : ℕ)
    → All (λ s. P s.index) steps
    → token_to_index steps token ≡ some i
    → P i
token_to_index-All P steps token i h e = elim (Bool-cases (token_count token steps == 1)) [
  | inl once ↦ find_token-All P token steps i h (rw once at e)
  | inr other ↦ let f = rw other at e in cc
]

find_index-has :
    (i : ℕ) (ss : List PlannedEnricher) → has_index i ss ≡ true → is_none (find_index i ss) ≡ false
find_index-has i [] h = cc
find_index-has i (s ∷ ss) h = elim (Bool-cases (s.index == i)) [
  | inl same ↦ rw same refl
  | inr other ↦ rw other (find_index-has i ss (rw other at h))
]

module _ (base : Base) (steps : List PlannedEnricher) (running : Running) (aborted : ℕ → Bool) where
  unknown-nil : (ds : List String) → unknown_details base steps ds ≡ none → ds ≡ []
  unknown-nil [] h = refl
  unknown-nil (d ∷ ds) h = cc

  -- A step that can be planned knows its prerequisites.
  plan_details-known :
      (s : PlannedEnricher)
      → plan_details base steps s ≡ none
      → keep_texts (λ d. is_none (token_to_index steps d)) s.dependencies ≡ []
  unfolding plan_details
  plan_details-known s h = elim (Bool-cases (ltb 1 (token_count s.token steps))) [
    | inl twice ↦ let f = rw twice at h in cc
    | inr once ↦ elim (Bool-cases s.dependency_shape_valid) [
      | inr bad ↦ let f = rw (once, bad) at h in cc
      | inl good ↦
          unknown-nil (keep_texts (λ d. is_none (token_to_index steps d)) s.dependencies)
            (rw (once, good) at h)
    ]
  ]

  waits_for :
      (st : State) (ds : List String)
      → All (λ s. Covered s.index st) steps
      → keep_texts (λ d. is_none (token_to_index steps d)) ds ≡ []
      → all (λ d. is_available (run_of base steps st.runs d)) ds ≡ false
      → any (λ d. is_unavailable (run_of base steps st.runs d)) ds ≡ false
      → any (is_pending steps st.pending) ds ≡ true
  waits_for st [] c known ready blocked = cc
  waits_for st (d ∷ ds) c known ready blocked = elim (Option-cases (token_to_index steps d)) [
    | inl gone ↦ let f = rw gone at known in cc
    | inr (i, e) ↦ elim (Option-cases (st.runs i)) [
      | inl free ↦ elim (token_to_index-All (λ j. Covered j st) steps d i c e) [
        | inl waiting ↦ rw (e, find_index-has i st.pending waiting) refl
        | inr settled ↦ let f = rw free at settled in cc
      ]
      | inr (r, f) ↦ elim (Bool-cases (run_is_available r)) [
        | inr bad ↦ let g = rw (e, f, bad) at blocked in cc
        | inl good ↦
            let more =
              waits_for st ds c (rw e at known) (rw (e, f, good) at ready)
                (rw (e, f, good) at blocked) in
            ground (arith, more)
      ]
    ]
  ]

  pub stalled-IsStuck :
      (st : State)
      → All (Waits base steps running aborted) st.pending
      → All (λ s. Covered s.index st) steps
      → is_empty (keep (is_ready base steps st.runs) st.pending) ≡ true
      → is_empty (keep (is_blocked base steps st.runs) st.pending) ≡ true
      → All (IsStuck steps st.pending) st.pending
  stalled-IsStuck st w c ready blocked =
      All-weaken st.pending
        (λ s h. waits_for st s.dependencies c (plan_details-known s (h.0.1)) (h.1.0) (h.1.1))
        (All-both (Waits base steps running aborted)
          (λ s. (is_ready base steps st.runs s ≡ false) × (is_blocked base steps st.runs s ≡ false))
          st.pending w
          (All-both (λ s. is_ready base steps st.runs s ≡ false)
            (λ s. is_blocked base steps st.runs s ≡ false) st.pending
            (keep-none (is_ready base steps st.runs) st.pending ready)
            (keep-none (is_blocked base steps st.runs) st.pending blocked)))
