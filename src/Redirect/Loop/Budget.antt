-- ===== src/Redirect/Loop/Budget.antt =====
-- The chain ends, within its hop budget (packages/online/src/resolution/redirect-chain.ts).
use linklint.Common.{
  Text, [], arith, length, length-append, none, some, suc, zero, ℕ, ◌+◌, ◌<◌, ◌∙◌, ◌∷◌, ◌≡◌, ◌≤◌,
}
use linklint.Redirect.{Environment}
use linklint.Redirect.Loop.{
  Chain, ChainOptions, ChainState, again, done, enrich, hop_of, loop, round, start,
}
use linklint.Redirect.Loop.Rounds.{
  advance, advanced, ended, halted, loop-again, loop-done, round_case,
}

module _ {D I : Type 0} (env : Environment D I) (options : ChainOptions D) where
  -- From a state with room for the rest of the fuel, every larger fuel gives the same chain.
  abbrev Ends : ℕ → ChainState D I → Type 0
  Ends room s =
      (chain : Chain D I) × ((fuel : ℕ) → room < fuel → loop env options fuel s ≡ some chain)
      × (length chain.hops ≤ options.max_hops)

  loop-done_any :
      (s : ChainState D I) (chain : Chain D I) (room fuel : ℕ)
      → round env options s ≡ done chain
      → room < fuel
      → loop env options fuel s ≡ some chain
  loop-done_any s chain room zero e h = elim h [ ]
  loop-done_any s chain room (suc fuel) e h = loop-done env options s fuel e

  loop-again_any :
      (s s' : ChainState D I) (chain : Chain D I) (room fuel : ℕ)
      → round env options s ≡ again s'
      → ((more : ℕ) → room < more → loop env options more s' ≡ some chain)
      → suc room < fuel
      → loop env options fuel s ≡ some chain
  loop-again_any s s' chain room zero e ih h = elim h [ ]
  loop-again_any s s' chain room (suc fuel) e ih h =
      loop-again env options s fuel e ∙ ih fuel (omega arith)

  loop-Ends :
      (room : ℕ) (s : ChainState D I) → options.max_hops ≡ room + length s.hops → Ends room s
  loop-Ends zero s h = elim (round_case env options s) [
    | halted why calls how new e ↦ (_, λ fuel k. loop-done_any s _ 0 fuel e k, omega arith)
    | ended response why f e ↦ absurd (omega (arith, f.room))
    | advanced response t f d e ↦ absurd (omega (arith, f.room))
  ]
  loop-Ends (suc room) s h = elim (round_case env options s) [
    | halted why calls how new e ↦ (_, λ fuel k. loop-done_any s _ (suc room) fuel e k, omega arith)
    | ended response why f e ↦ (
      _,
      λ fuel k. loop-done_any s _ (suc room) fuel e k,
      omega (arith, f.room, length-append s.hops (hop_of env options s response none ∷ [])),
    )
    | advanced response t f d e ↦
        let (chain, ends, short) =
          loop-Ends room (advance env options s response t) (
            omega (arith, h, length-append s.hops (hop_of env options s response (some t) ∷ []))) in
        (chain, λ fuel k. loop-again_any s _ chain room fuel e ends k, short)
  ]

-- The chain ends after at most `max_hops` hops: the fuel of `enrich` suffices, and more of it
-- changes nothing.
pub enrich-Ends :
    {D I : Type 0} (env : Environment D I) (options : ChainOptions D) (url : Text)
    → (chain : Chain D I) × (enrich env options url ≡ some chain)
      × ((fuel : ℕ)
          → options.max_hops < fuel
          → loop env options fuel (start env options url) ≡ some chain)
      × (length chain.hops ≤ options.max_hops)
unfolding enrich
enrich-Ends env options url =
    let (chain, ends, short) =
      loop-Ends env options options.max_hops (start env options url) (omega arith) in
    (chain, ends (options.max_hops + 1) (omega arith), ends, short)
