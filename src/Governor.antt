-- ===== src/Governor.antt =====
-- packages/core/src/enrichment-governor.ts: `InMemoryEnrichmentGovernor`. The clock's answer is an
-- argument of each call, in whole milliseconds. The source counts tokens in floating point; here
-- they are counted exactly, in parts of which `unit` make one token, so that a millisecond refills
-- one part: with a refill interval of 1000 ms, a token is 1000 parts. The limits are whole numbers.
pub mod Bucket
pub mod Rate
pub mod Backoff
use linklint.Common.{
  Bool, Dict, Number, Option, String, false, finite, if◌then◌else◌, insert, leb, lookup, ltb, min,
  none, pos, positive, some, true, ℕ, ◌*◌, ◌+◌, ◌-◌, ◌^◌,
}

pub data GovernorDenialCause : Type 0 where
  rate_limited backoff_active : GovernorDenialCause

-- `timeoutMs` of an admission: left out, `null`, or a number of milliseconds.
pub data Timeout : Type 0 where
  unset opted_out : Timeout
  millis : ℕ → Timeout

pub data GovernorDecision : Type 0 where
  denied : GovernorDenialCause → GovernorDecision
  admitted : Timeout → GovernorDecision

abbrev pub is_admitted : GovernorDecision → Bool
is_admitted (denied cause) = false
is_admitted (admitted timeout) = true

-- A field is `none` where the caller left it out; `defaultTimeoutMs` may also be `null`.
pub data TimeoutSetting : Type 0 where
  omitted null : TimeoutSetting
  number : Number → TimeoutSetting

pub record EnrichmentGovernorConfig : Type 0 where
  pub default_timeout_ms : TimeoutSetting
  pub capacity : Option Number
  pub refill_interval_ms : Option Number
  pub backoff_base_ms : Option Number
  pub backoff_max_ms : Option Number

pub record SourceState : Type 0 where
  pub tokens : ℕ
  pub last_refill : ℕ
  pub consecutive_failures : ℕ
  pub backoff_until : ℕ

-- The readonly fields of the governor. Its only other field is the map `states`.
pub record Policy : Type 0 where
  pub default_timeout_ms : Option Number
  pub capacity : ℕ
  pub refill_interval_ms : Number
  pub backoff_base_ms : ℕ
  pub backoff_max_ms : ℕ

abbrev pub States : Type 0
States = Dict SourceState

or_fallback : Option ℕ → ℕ → ℕ
or_fallback none fallback = fallback
or_fallback (some n) fallback = n

unfoldable pub positive_or : Option Number → ℕ → ℕ
unfolding or_fallback
positive_or none fallback = fallback
positive_or (some value) fallback = or_fallback (positive value) fallback

timeout_setting : TimeoutSetting → Option Number
timeout_setting omitted = some (finite (pos 5000))
timeout_setting null = none
timeout_setting (number n) = some n

interval_setting : Option Number → Number
interval_setting none = finite (pos 1000)
interval_setting (some n) = n

-- The constructor; the map starts empty.
unfoldable pub create : EnrichmentGovernorConfig → Policy
unfolding positive_or timeout_setting interval_setting
create config = record {
  default_timeout_ms = timeout_setting config.default_timeout_ms;
  capacity = positive_or config.capacity 10;
  refill_interval_ms = interval_setting config.refill_interval_ms;
  backoff_base_ms = positive_or config.backoff_base_ms 1000;
  backoff_max_ms = positive_or config.backoff_max_ms 30000;
}

-- The parts in a token: one where the refill is disabled.
abbrev pub parts : Option ℕ → ℕ
parts none = 1
parts (some interval) = interval

abbrev pub unit : Policy → ℕ
unit g = parts (positive g.refill_interval_ms)

refill_by : Policy → Option ℕ → SourceState → ℕ → SourceState
refill_by g none state now = record state { last_refill = now }
refill_by g (some interval) state now = if leb now state.last_refill then state else record state {
  tokens = min (g.capacity * interval) (state.tokens + (now - state.last_refill));
  last_refill = now;
}

unfoldable pub refill : Policy → SourceState → ℕ → SourceState
unfolding refill_by
refill g state now = refill_by g (positive g.refill_interval_ms) state now

effective_timeout : Option Number → Timeout
effective_timeout none = opted_out
effective_timeout (some n) = elim (positive n) [ none ↦ unset | some ms ↦ millis ms ]

abbrev pub new_state : Policy → ℕ → SourceState
new_state g now = record {
  tokens = g.capacity * unit g;
  last_refill = now;
  consecutive_failures = 0;
  backoff_until = 0;
}

abbrev pub or_new : Policy → ℕ → Option SourceState → SourceState
or_new g now none = new_state g now
or_new g now (some state) = state

module _ (g : Policy) (token : String) (states : States) where
  -- `stateFor`; each caller writes the state back, so the `set` of a new one is in that write.
  unfoldable pub state_for : ℕ → SourceState
  state_for now = or_new g now (lookup token states)

  abbrev write : SourceState → States
  write state = insert token state states

  -- The backoff window is tested first, then a token is spent.
  unfoldable pub admit : ℕ → GovernorDecision × States
  unfolding effective_timeout
  admit now =
      let state = state_for now in
      if ltb now state.backoff_until
      then (denied backoff_active, write state)
      else (let full = refill g state now in
          if ltb full.tokens (unit g) then (denied rate_limited, write full) else (
            admitted (effective_timeout g.default_timeout_ms),
            write (record full { tokens = full.tokens - unit g }),
          ))

  unfoldable pub record_success : ℕ → States
  record_success now =
      write (record (state_for now) { consecutive_failures = 0; backoff_until = 0 })

  unfoldable pub record_failure : ℕ → States
  record_failure now =
      let failures = (state_for now).consecutive_failures + 1 in
      let raw = g.backoff_base_ms * 2 ^ (failures - 1) in
      let window = min raw g.backoff_max_ms in
      write
        (record (state_for now) { consecutive_failures = failures; backoff_until = now + window })
