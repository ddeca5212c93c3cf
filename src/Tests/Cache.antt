-- ===== src/Tests/Cache.antt =====
-- Runs of packages/core/src/enrichment-cache.ts.
use linklint.Common.{
  List, [], arith, erase, finite, insert, lookup, nan, negsuc, none, pos, refl, some, ℕ, ◌∷◌, ◌≡◌,
}
use linklint.Cache.{get, set}
use linklint.Cache.Refines.{Call, get-newest, got, run, stored}

abbrev history : List (Call ℕ)
history =
    stored 20 "tls:b" 9 nan
    ∷ got 15 "tls:a"
    ∷ stored 10 "tls:a" 7 (finite (pos 30))
    ∷ stored 5 "tls:a" 6 (finite (negsuc 0))
    ∷ []

get_at_expiry :
    ((get 39 "tls:a" (run history)).0 ≡ some 7)
    × ((get 40 "tls:a" (run history)).0 ≡ none)
    × ((get 21 "tls:b" (run history)).0 ≡ none)
unfolding get set run lookup insert erase
get_at_expiry = (refl, refl, refl)

get-newest_example : (get 39 "tls:a" (run history)).0 ≡ some 7
get-newest_example = get-newest 39 "tls:a" history (omega arith)
