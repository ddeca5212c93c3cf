-- ===== src/Governor/Rate.antt =====
-- How often a source is let through (packages/core/src/enrichment-governor.ts).
use linklint.Common.{
  Bool-cases, List, Option, String, [], arith, eq_iff, false, inl, inr, lookup, lookup-insert_ne,
  ltb, none, refl, some, str_eq, ℕ, ◌*◌, ◌+◌, ◌-◌, ◌∷◌, ◌≡◌, ◌≤◌,
}
use linklint.Governor.{
  Policy, SourceState, States, admit, record_failure, record_success, refill, state_for, unit,
}
use linklint.Governor.Bucket.{
  Accounts, Call, IsWithin, accrual, admissions, admit-Accounts, admitting, failed,
  record_failure-Accounts, record_success-Accounts, run, succeeded,
}

module _ (g : Policy) (token key : String) (states : States) (now : ℕ)
    (other : str_eq token key ≡ false) where
  pub admit_ne : lookup key (admit g token states now).1 ≡ lookup key states
  unfolding admit
  admit_ne =
      let state = state_for g token states now in
      let full = refill g state now in
      elim (Bool-cases (ltb now state.backoff_until)) [
        | inl e ↦ rw e (lookup-insert_ne token key state states other)
        | inr e ↦ elim (Bool-cases (ltb full.tokens (unit g))) [
          | inl f ↦ rw (e, f) (lookup-insert_ne token key full states other)
          | inr f ↦ rw (e, f) (lookup-insert_ne token key _ states other)
        ]
      ]

  pub record_success_ne : lookup key (record_success g token states now) ≡ lookup key states
  unfolding record_success
  record_success_ne = lookup-insert_ne token key _ states other

  pub record_failure_ne : lookup key (record_failure g token states now) ≡ lookup key states
  unfolding record_failure
  record_failure_ne = lookup-insert_ne token key _ states other

module _ (g : Policy) (from to : ℕ) (key : String) where
  run-Accounts :
      (calls : List Call)
      → IsWithin from to calls
      → Accounts g from to (admissions g key calls) (lookup key (run g calls))
  unfolding run admissions lookup
  run-Accounts [] h = refl
  run-Accounts (admitting now token ∷ calls) (h, hs) = elim (Bool-cases (str_eq token key)) [
    | inl e ↦
        rw (e, (eq_iff token key).0 e)
          (admit-Accounts g from to key (run g calls) now (admissions g key calls) h.0 h.1
            (run-Accounts calls hs))
    | inr e ↦ rw (e, admit_ne g token key (run g calls) now e) (run-Accounts calls hs)
  ]
  run-Accounts (succeeded now token ∷ calls) (h, hs) = elim (Bool-cases (str_eq token key)) [
    | inl e ↦ rw ((eq_iff token key).0 e) (
        record_success-Accounts g from to key (run g calls) now (admissions g key calls) h.0 h.1
          (run-Accounts calls hs))
    | inr e ↦ rw (record_success_ne g token key (run g calls) now e) (run-Accounts calls hs)
  ]
  run-Accounts (failed now token ∷ calls) (h, hs) = elim (Bool-cases (str_eq token key)) [
    | inl e ↦ rw ((eq_iff token key).0 e) (
        record_failure-Accounts g from to key (run g calls) now (admissions g key calls) h.0 h.1
          (run-Accounts calls hs))
    | inr e ↦ rw (record_failure_ne g token key (run g calls) now e) (run-Accounts calls hs)
  ]

  spent_bound :
      (spent : ℕ) (o : Option SourceState)
      → Accounts g from to spent o
      → spent * unit g ≤ g.capacity * unit g + accrual g (to - from)
  spent_bound spent none a = rw a (omega arith)
  spent_bound spent (some state) a = ground arith

-- Whatever calls are made for whichever sources between two times, a source is let through at
-- most `capacity` times and once more for each refill interval between them (in parts: `unit` to
-- one admission, one part for a millisecond, and none where the refill is disabled).
pub admissions-bound :
    (g : Policy) (from to : ℕ) (key : String) (calls : List Call)
    → IsWithin from to calls
    → admissions g key calls * unit g ≤ g.capacity * unit g + accrual g (to - from)
admissions-bound g from to key calls h =
    spent_bound g from to key (admissions g key calls) (lookup key (run g calls))
      (run-Accounts g from to key calls h)
