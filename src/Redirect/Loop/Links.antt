-- ===== src/Redirect/Loop/Links.antt =====
-- How the hops of a chain hang together (packages/online/src/resolution/redirect-chain.ts).
use mathlib.Core.List.{append-nil, append_assoc}
use linklint.Common.{
  List, Option, Text, [], length, length-append, none, refl, some, suc, sym, zero, ℕ, ◌++◌, ◌+◌,
  ◌∙◌, ◌∷◌, ◌≡◌,
}
use linklint.Redirect.{
  AuthorizationReason, AuthorizationRequest, Environment, follow, followed, granted, initial,
  success,
}
use linklint.Redirect.Transition.{transition_for}
use linklint.Redirect.Loop.{
  Chain, ChainCall, ChainHop, ChainOptions, ChainState, enrich, hop_of, loop, request_of, start,
}
use linklint.Redirect.Loop.Rounds.{
  Stopped, Unseen, advance, advanced, both_calls, ended, fetched_urls, halted, loop-again,
  loop-done_inv, round_case,
}

module _ {D I : Type 0} (env : Environment D I) (options : ChainOptions D) where
  -- The request for the hop after `count` hops.
  abbrev pub asked : ℕ → Text → AuthorizationReason → Option Text → AuthorizationRequest
  asked count url reason from = record {
    url = url;
    hop = count + 1;
    method = options.method;
    reason = reason;
    from_url = from;
  }

  -- The first hop goes to `url`, for `reason`, with `count` hops before it, and each later one to
  -- the target that the response before it was read to name. The calls are those for each hop, of
  -- the authorizer and then of the transport, and those of a last round without a hop.
  abbrev pub Linked :
      ℕ → Text → AuthorizationReason → Option Text → List (ChainHop D I) → List ChainCall → Type 0
  Linked count url reason from [] calls = Stopped env options (asked count url reason from) calls
  Linked count url reason from (h ∷ hs) calls =
      (h.url ≡ url)
      × (h.hop ≡ count + 1)
      × (h.reason ≡ reason)
      × (h.from_url ≡ from)
      × (h.offline ≡ env.inspect url)
      × (env.authorize (asked count url reason from) ≡ granted)
      × (env.fetch (count + 1) url ≡ success h.response)
      × ((rest : List ChainCall) × (calls
            ≡ both_calls env options (asked count url reason from) ++ rest)
          × elim h.transition [
            | none ↦ (hs ≡ []) × (rest ≡ [])
            | some t ↦
                (transition_for env h.response url options.method options.policy ≡ follow t)
                × Linked (count + 1) t.target_url (followed t.kind) (some url) hs rest
          ])

  -- The hops and the calls that the loop adds to those of the state.
  record Adds (s : ChainState D I) (chain : Chain D I) : Type 0 where
    hops : List (ChainHop D I)
    calls : List ChainCall
    joined : chain.hops ≡ s.hops ++ hops
    called : chain.calls ≡ s.calls ++ calls
    linked : Linked (length s.hops) s.current_url s.reason s.from_url hops calls
    unseen : Unseen s.seen (fetched_urls calls)

  loop-Adds :
      (fuel : ℕ) (s : ChainState D I) (chain : Chain D I)
      → s.current_offline ≡ env.inspect s.current_url
      → loop env options fuel s ≡ some chain
      → Adds s chain
  loop-Adds zero s chain o h = unfold loop in cc
  loop-Adds (suc fuel) s chain o h = elim (round_case env options s) [
    | halted why calls how new e ↦ record {
      hops = [];
      calls = calls;
      joined = rw (loop-done_inv env options s fuel e h, append-nil);
      called = rw (loop-done_inv env options s fuel e h);
      linked = how;
      unseen = new;
    }
    | ended response why f e ↦ record {
      hops = hop_of env options s response none ∷ [];
      calls = both_calls env options (request_of env options s);
      joined = rw (loop-done_inv env options s fuel e h);
      called = rw (loop-done_inv env options s fuel e h);
      linked = (refl, refl, refl, refl, o, f.authorized, f.fetched, ([], refl, (refl, refl)));
      unseen = (f.fresh, tt);
    }
    | advanced response t f d e ↦
        let next = hop_of env options s response (some t) in
        let more : loop env options fuel (advance env options s response t) ≡ some chain =
          sym (loop-again env options s fuel e) ∙ h in
        let rest = loop-Adds fuel (advance env options s response t) chain refl more in
        let count : length (s.hops ++ next ∷ []) ≡ length s.hops + 1 =
          length-append s.hops (next ∷ []) in
        let calls = both_calls env options (request_of env options s) in
        record {
          hops = next ∷ rest.hops;
          calls = calls ++ rest.calls;
          joined = rest.joined ∙ append_assoc s.hops (next ∷ []) rest.hops;
          called = rest.called ∙ append_assoc s.calls calls rest.calls;
          linked = (
            refl,
            refl,
            refl,
            refl,
            o,
            f.authorized,
            f.fetched,
            (rest.calls, refl, (d, rw count at rest.linked)),
          );
          unseen = (f.fresh, rest.unseen);
        }
  ]

-- The hops of a finished chain are linked: the first goes to the given URL, each later one to the
-- target that `transitionFor` read off the response before it, and they are numbered from 1. The
-- calls of the authorizer and the transport are, for each hop in turn, the authorizer's with exactly
-- its URL, number, reason and origin, which it grants, and only then the fetch of the hop; and at
-- last, where a further hop is not made, at most the authorizer's for it and, if it grants, one fetch
-- that gives no response.
pub enrich-Linked :
    {D I : Type 0} (env : Environment D I) (options : ChainOptions D) (url : Text)
    (chain : Chain D I)
    → enrich env options url ≡ some chain
    → Linked env options 0 url initial none chain.hops chain.calls
unfolding enrich
enrich-Linked env options url chain h =
    let a = loop-Adds env options (options.max_hops + 1) (start env options url) chain refl h in
    rw (a.joined, a.called) a.linked

-- No chain calls the transport twice for a URL, whether the calls give a response or not.
pub enrich-Unseen :
    {D I : Type 0} (env : Environment D I) (options : ChainOptions D) (url : Text)
    (chain : Chain D I)
    → enrich env options url ≡ some chain
    → Unseen [] (fetched_urls chain.calls)
unfolding enrich
enrich-Unseen env options url chain h =
    let a = loop-Adds env options (options.max_hops + 1) (start env options url) chain refl h in
    rw a.called a.unseen
