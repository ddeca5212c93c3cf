-- ===== src/Cache.antt =====
-- packages/core/src/enrichment-cache.ts: `InMemoryEnrichmentCache`. The clock's answer is an
-- argument of each call, in whole milliseconds; a report is any type.
pub mod Refines
use linklint.Common.{
  Dict, Number, Option, String, erase, if◌then◌else◌, insert, leb, lookup, none, positive, some, ℕ,
  ◌+◌,
}

pub record CacheEntry {ℓ} (R : Type ℓ) : Type ℓ where
  pub report : R
  pub expires_at : ℕ

abbrev pub Store {ℓ} : Type ℓ → Type ℓ
Store R = Dict (CacheEntry R)

module _ {ℓ} {R : Type ℓ} where
  -- The rest of `get`, at the entry that the map holds.
  get_entry : ℕ → String → Option (CacheEntry R) → Store R → Option R × Store R
  get_entry now key none store = (none, store)
  get_entry now key (some entry) store =
      if leb entry.expires_at now then (none, erase key store) else (some entry.report, store)

  unfoldable pub get : ℕ → String → Store R → Option R × Store R
  unfolding get_entry
  get now key store = get_entry now key (lookup key store) store

  -- A TTL that is not finite or not positive is refused.
  set_for : ℕ → String → R → Option ℕ → Store R → Store R
  set_for now key report none store = store
  set_for now key report (some ttl) store =
      insert key (record { report = report; expires_at = now + ttl }) store

  unfoldable pub set : ℕ → String → R → Number → Store R → Store R
  unfolding set_for
  set now key report ttl store = set_for now key report (positive ttl) store
