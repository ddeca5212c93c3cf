-- ===== src/Governor/Bucket.antt =====
-- The token bucket: a history of calls, and how many of them a source admitted
-- (packages/core/src/enrichment-governor.ts).
use linklint.Common.{
  All, Bool-cases, List, Option, String, [], arith, false, if◌then◌else◌, inl, inr, lookup,
  lookup-insert_self, ltb, none, positive, some, str_eq, ℕ, ◌&&◌, ◌*◌, ◌+◌, ◌-◌, ◌∷◌, ◌≡◌, ◌≤◌,
}
use linklint.Governor.{
  Policy, SourceState, States, admit, is_admitted, or_new, record_failure, record_success, refill,
  state_for, unit,
}

-- A call, with the clock's answer in it.
pub data Call : Type 0 where
  admitting succeeded failed : (now : ℕ) (token : String) → Call

abbrev pub time : Call → ℕ
time (admitting now token) = now
time (succeeded now token) = now
time (failed now token) = now

module _ (g : Policy) where
  -- The map after a history, the newest call first.
  unfoldable pub run : List Call → States
  run [] = []
  run (admitting now token ∷ calls) = (admit g token (run calls) now).1
  run (succeeded now token ∷ calls) = record_success g token (run calls) now
  run (failed now token ∷ calls) = record_failure g token (run calls) now

  -- How many calls of a history a source let through.
  unfoldable pub admissions : String → List Call → ℕ
  admissions key [] = 0
  admissions key (admitting now token ∷ calls) =
      if str_eq token key && is_admitted (admit g token (run calls) now).0
      then admissions key calls + 1
      else admissions key calls
  admissions key (_ ∷ calls) = admissions key calls

-- Every clock answer of the history lies in the interval.
abbrev pub IsWithin : ℕ → ℕ → List Call → Type 0
IsWithin from to calls = All (λ call. (from ≤ time call) × (time call ≤ to)) calls

-- The parts that a refill may add over a time.
abbrev pub accrual : Policy → ℕ → ℕ
accrual g elapsed = elim (positive g.refill_interval_ms) [ none ↦ 0 | some _ ↦ elapsed ]

-- What a source has spent and still holds is what it began with and was given since.
pub record IsAccounted (g : Policy) (from to spent : ℕ) (state : SourceState) : Type 0 where
  pub since : from ≤ state.last_refill
  pub until : state.last_refill ≤ to
  pub spent_and_held :
      spent * unit g + state.tokens ≤ g.capacity * unit g + accrual g (state.last_refill - from)

refill-IsAccounted :
    (g : Policy) (from to spent now : ℕ) (state : SourceState)
    → from ≤ now
    → now ≤ to
    → IsAccounted g from to spent state
    → IsAccounted g from to spent (refill g state now)
unfolding refill
refill-IsAccounted g from to spent now state h k a = ground arith

abbrev pub Accounts : Policy → (from to spent : ℕ) → Option SourceState → Type 0
Accounts g from to spent none = spent ≡ 0
Accounts g from to spent (some state) = IsAccounted g from to spent state

or_new-IsAccounted :
    (g : Policy) (from to spent now : ℕ) (o : Option SourceState)
    → from ≤ now
    → now ≤ to
    → Accounts g from to spent o
    → IsAccounted g from to spent (or_new g now o)
or_new-IsAccounted g from to spent now none h k e = ground arith
or_new-IsAccounted g from to spent now (some state) h k a = a

-- An admission takes one token's parts.
spend-IsAccounted :
    (g : Policy) (from to spent : ℕ) (state : SourceState)
    → ltb state.tokens (unit g) ≡ false
    → IsAccounted g from to spent state
    → IsAccounted g from to (spent + 1) (record state { tokens = state.tokens - unit g })
spend-IsAccounted g from to spent state h a = ground arith

module _ (g : Policy) (from to : ℕ) (key : String) where
  module _ (states : States) (now spent : ℕ) (h : from ≤ now) (k : now ≤ to)
      (a : Accounts g from to spent (lookup key states)) where
    state_for-IsAccounted : IsAccounted g from to spent (state_for g key states now)
    unfolding state_for
    state_for-IsAccounted = or_new-IsAccounted g from to spent now (lookup key states) h k a

    pub admit-Accounts :
        Accounts g from to
          (if is_admitted (admit g key states now).0 then spent + 1 else spent)
          (lookup key (admit g key states now).1)
    unfolding admit
    admit-Accounts =
        let state = state_for g key states now in
        let full = refill g state now in
        let refilled = refill-IsAccounted g from to spent now state h k state_for-IsAccounted in
        elim (Bool-cases (ltb now state.backoff_until)) [
          | inl e ↦ rw (e, lookup-insert_self) state_for-IsAccounted
          | inr e ↦ elim (Bool-cases (ltb full.tokens (unit g))) [
            | inl f ↦ rw (e, f, lookup-insert_self) refilled
            | inr f ↦
                rw (e, f, lookup-insert_self) (spend-IsAccounted g from to spent full f refilled)
          ]
        ]

    pub record_success-Accounts :
        Accounts g from to spent (lookup key (record_success g key states now))
    unfolding record_success
    record_success-Accounts = rw lookup-insert_self (ground (arith, state_for-IsAccounted))

    pub record_failure-Accounts :
        Accounts g from to spent (lookup key (record_failure g key states now))
    unfolding record_failure
    record_failure-Accounts = rw lookup-insert_self (ground (arith, state_for-IsAccounted))
