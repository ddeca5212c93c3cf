-- ===== src/Governor/Backoff.antt =====
-- The backoff window of a source, and the independence of the sources
-- (packages/core/src/enrichment-governor.ts).
use linklint.Common.{
  Bool-cases, List, String, [], ap, arith, eq_iff, if◌then◌else◌, inl, inr, insert, length, lookup,
  lookup-insert_self, ltb, min, refl, str_eq, ℕ, ◌*◌, ◌+◌, ◌-◌, ◌<◌, ◌^◌, ◌↔◌, ◌∷◌, ◌≡◌, ◌≢◌,
}
use linklint.Governor.Bucket.{Call, admitting, failed, run, succeeded}
use linklint.Governor.Rate.{admit_ne, record_failure_ne, record_success_ne}
use linklint.Governor.{
  Policy, SourceState, States, admit, backoff_active, denied, or_new, record_failure,
  record_success, refill, state_for, unit,
}

-- After the failures of a source, each noted at its time, the newest first.
abbrev pub fail : Policy → String → List ℕ → States → States
fail g key [] states = states
fail g key (now ∷ times) states = record_failure g key (fail g key times states) now

-- The window that the source's `failures`-th failure in a row opens.
abbrev pub window : Policy → ℕ → ℕ
window g failures = min (g.backoff_base_ms * 2 ^ (failures - 1)) g.backoff_max_ms

module _ (g : Policy) (key : String) where
  state_for-insert :
      (state : SourceState) (states : States) (now : ℕ)
      → state_for g key (insert key state states) now ≡ state
  unfolding state_for
  state_for-insert state states now = rw lookup-insert_self

  record_failure-state :
      (states : States) (now then' : ℕ)
      → ((state_for g key (record_failure g key states now) then').consecutive_failures
          ≡ (state_for g key states now).consecutive_failures + 1)
        × ((state_for g key (record_failure g key states now) then').backoff_until
            ≡ now + window g ((state_for g key states now).consecutive_failures + 1))
  unfolding record_failure
  record_failure-state states now t = rw state_for-insert (refl, refl)

  consecutive_failures-fail :
      (states : States) (times : List ℕ) (start now : ℕ)
      → (state_for g key
          (fail g key times (record_success g key states start))
          now).consecutive_failures
        ≡ length times
  consecutive_failures-fail states [] start now = unfold record_success in rw state_for-insert
  consecutive_failures-fail states (t ∷ times) start now = omega (
    arith,
    (record_failure-state (fail g key times (record_success g key states start)) t now).0,
    consecutive_failures-fail states times start t,
  )

  admit-backoff :
      (states : States) (now : ℕ)
      → ((admit g key states now).0 ≡ denied backoff_active)
        ↔ (now < (state_for g key states now).backoff_until)
  unfolding admit
  admit-backoff states now = ground arith

-- After a success and then failures in a row, the newest of them at `t`, a call is refused for
-- backoff exactly before `t + min (base * 2 ^ (failures - 1)) max`.
pub admit-fail_iff :
    (g : Policy) (key : String) (states : States) (start t now : ℕ) (times : List ℕ)
    → ((admit g key (fail g key (t ∷ times) (record_success g key states start)) now).0
        ≡ denied backoff_active)
      ↔ (now < t + window g (length times + 1))
admit-fail_iff g key states start t now times =
    rw (← consecutive_failures-fail g key states times start t) (
      rw
        (← (record_failure-state g key (fail g key times (record_success g key states start)) t
          now).1)
        (admit-backoff g key (fail g key (t ∷ times) (record_success g key states start)) now))

-- A success lifts the backoff: the next call is not refused for it, whatever the clock says.
pub admit-record_success :
    (g : Policy) (key : String) (states : States) (t now : ℕ)
    → (admit g key (record_success g key states t) now).0 ≢ denied backoff_active
admit-record_success g key states t now e = absurd (
    unfold record_success in
    (omega (
      arith,
      (admit-backoff g key (record_success g key states t) now).0 e,
      ap (λ (s : SourceState). s.backoff_until) (state_for-insert g key _ states now),
    )))

-- The calls of one source.
abbrev pub only : String → List Call → List Call
only key [] = []
only key (admitting now token ∷ calls) =
    if str_eq token key then admitting now token ∷ only key calls else only key calls
only key (succeeded now token ∷ calls) =
    if str_eq token key then succeeded now token ∷ only key calls else only key calls
only key (failed now token ∷ calls) =
    if str_eq token key then failed now token ∷ only key calls else only key calls

module _ (g : Policy) (key : String) (s t : States) (same : lookup key s ≡ lookup key t)
    (now : ℕ) where
  state_for-same : state_for g key s now ≡ state_for g key t now
  unfolding state_for
  state_for-same = ap (or_new g now) same

  admit-same :
      ((admit g key s now).0 ≡ (admit g key t now).0)
      × (lookup key (admit g key s now).1 ≡ lookup key (admit g key t now).1)
  unfolding admit
  admit-same =
      let state = state_for g key t now in
      let full = refill g state now in
      rw state_for-same (elim (Bool-cases (ltb now state.backoff_until)) [
        | inl e ↦ rw (e, lookup-insert_self, lookup-insert_self) (refl, refl)
        | inr e ↦ elim (Bool-cases (ltb full.tokens (unit g))) [
          | inl f ↦ rw (e, f, lookup-insert_self, lookup-insert_self) (refl, refl)
          | inr f ↦ rw (e, f, lookup-insert_self, lookup-insert_self) (refl, refl)
        ]
      ])

  record_success-same :
      lookup key (record_success g key s now) ≡ lookup key (record_success g key t now)
  unfolding record_success
  record_success-same = rw (state_for-same, lookup-insert_self, lookup-insert_self)

  record_failure-same :
      lookup key (record_failure g key s now) ≡ lookup key (record_failure g key t now)
  unfolding record_failure
  record_failure-same = rw (state_for-same, lookup-insert_self, lookup-insert_self)

lookup-run-only :
    (g : Policy) (key : String) (calls : List Call)
    → lookup key (run g calls) ≡ lookup key (run g (only key calls))
unfolding run
lookup-run-only g key [] = refl
lookup-run-only g key (admitting now token ∷ calls) = elim (Bool-cases (str_eq token key)) [
  | inl e ↦
      rw (e, (eq_iff token key).0 e) ((admit-same g key _ _ (lookup-run-only g key calls) now).1)
  | inr e ↦ rw (e, admit_ne g token key (run g calls) now e) (lookup-run-only g key calls)
]
lookup-run-only g key (succeeded now token ∷ calls) = elim (Bool-cases (str_eq token key)) [
  | inl e ↦
      rw (e, (eq_iff token key).0 e)
        (record_success-same g key _ _ (lookup-run-only g key calls) now)
  | inr e ↦ rw (e, record_success_ne g token key (run g calls) now e) (lookup-run-only g key calls)
]
lookup-run-only g key (failed now token ∷ calls) = elim (Bool-cases (str_eq token key)) [
  | inl e ↦
      rw (e, (eq_iff token key).0 e)
        (record_failure-same g key _ _ (lookup-run-only g key calls) now)
  | inr e ↦ rw (e, record_failure_ne g token key (run g calls) now e) (lookup-run-only g key calls)
]

-- A source's decision depends only on its own calls: those of the other sources can be left out.
pub admit-run-only :
    (g : Policy) (key : String) (calls : List Call) (now : ℕ)
    → (admit g key (run g calls) now).0 ≡ (admit g key (run g (only key calls)) now).0
admit-run-only g key calls now = (admit-same g key _ _ (lookup-run-only g key calls) now).0
