-- ===== src/Cache/Refines.antt =====
-- The cache against its contract: what a `get` returns is settled by the history of calls alone.
use linklint.Common.{
  Bool-cases, List, Number, Option, Option-cases, String, [], arith, eq_iff, if◌then◌else◌, inl,
  inr, leb, lookup, lookup-erase, lookup-insert, ltb, none, positive, refl, some, str_eq, ℕ, ◌+◌,
  ◌∙◌, ◌∷◌, ◌≡◌, ◌≤◌,
}
use linklint.Cache.{CacheEntry, Store, get, set}

-- A call, with the clock's answer in it.
pub data Call {ℓ} (R : Type ℓ) : Type ℓ where
  got : (now : ℕ) (key : String) → Call R
  stored : (now : ℕ) (key : String) (report : R) (ttl : Number) → Call R

module _ {ℓ} {R : Type ℓ} where
  abbrev pub time : Call R → ℕ
  time (got now key) = now
  time (stored now key report ttl) = now

  -- The store after a history, the newest call first.
  unfoldable pub run : List (Call R) → Store R
  run [] = []
  run (got now key ∷ calls) = (get now key (run calls)).1
  run (stored now key report ttl ∷ calls) = set now key report ttl (run calls)

  abbrev entry_of : ℕ → R → Option ℕ → Option (CacheEntry R) → Option (CacheEntry R)
  entry_of now report none older = older
  entry_of now report (some ttl) older = some (record { report = report; expires_at = now + ttl })

  -- The newest acceptable `set` of the key.
  abbrev pub newest : String → List (Call R) → Option (CacheEntry R)
  newest key [] = none
  newest key (got now k ∷ calls) = newest key calls
  newest key (stored now k report ttl ∷ calls) =
      if str_eq k key
      then entry_of now report (positive ttl) (newest key calls)
      else newest key calls

  -- A report is returned strictly before its expiry.
  abbrev pub fresh : ℕ → Option (CacheEntry R) → Option R
  fresh now none = none
  fresh now (some entry) = if ltb now entry.expires_at then some entry.report else none

  -- The clock did not run backwards, and reads at most `now` at the end.
  abbrev pub IsOrdered : ℕ → List (Call R) → Type 0
  IsOrdered now [] = Unit
  IsOrdered now (call ∷ calls) = (time call ≤ now) × IsOrdered (time call) calls

  IsOrdered-later :
      (t now : ℕ) (calls : List (Call R)) → t ≤ now → IsOrdered t calls → IsOrdered now calls
  IsOrdered-later t now [] h o = tt
  IsOrdered-later t now (call ∷ calls) h o = (omega arith, o.1)

  fresh-get :
      (t now : ℕ) (k key : String) (store : Store R)
      → t ≤ now
      → fresh now (lookup key (get t k store).1) ≡ fresh now (lookup key store)
  unfolding get
  fresh-get t now k key store h = elim (Option-cases (lookup k store)) [
    | inl missing ↦ rw missing
    | inr (entry, found) ↦ elim (Bool-cases (leb entry.expires_at t)) [
      | inl expired ↦
          rw (found, expired, lookup-erase)
            (ground (arith, eq_iff k key, found, lookup-erase k key store))
      | inr live ↦ rw (found, live)
    ]
  ]

  fresh-run :
      (now : ℕ) (key : String) (calls : List (Call R))
      → IsOrdered now calls
      → fresh now (lookup key (run calls)) ≡ fresh now (newest key calls)
  unfolding run set lookup
  fresh-run now key [] o = refl
  fresh-run now key (got t k ∷ calls) o =
      fresh-get t now k key (run calls) o.0
      ∙ fresh-run now key calls (IsOrdered-later t now calls o.0 o.1)
  fresh-run now key (stored t k report ttl ∷ calls) o =
      let ih = fresh-run now key calls (IsOrdered-later t now calls o.0 o.1) in
      elim (Option-cases (positive ttl)) [
        | inl refused ↦ rw refused (ground (arith, ih))
        | inr (millis, accepted) ↦ rw (accepted, lookup-insert) (ground (arith, ih))
      ]

  get-fresh :
      (now : ℕ) (key : String) (store : Store R)
      → (get now key store).0 ≡ fresh now (lookup key store)
  unfolding get
  get-fresh now key store = ground arith

-- With a clock that does not run backwards, a `get` returns the report of the newest `set` of its
-- key that had a finite, positive TTL, and nothing once that TTL is over.
pub get-newest {ℓ} :
    {R : Type ℓ} (now : ℕ) (key : String) (calls : List (Call R))
    → IsOrdered now calls
    → (get now key (run calls)).0 ≡ fresh now (newest key calls)
get-newest now key calls o = get-fresh now key (run calls) ∙ fresh-run now key calls o
