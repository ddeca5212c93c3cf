-- ===== src/Redirect/Loop/Rounds.antt =====
-- What one round of the loop does (packages/online/src/resolution/redirect-chain.ts).
use mathlib.Core.List.{append-nil, append_assoc}
use mathlib.Core.Logic.{◌≢◌}
use linklint.Common.{
  Bool-cases, List, Option, Text, [], ap, arith, false, inl, inr, leb, length, none, refl, some,
  suc, ℕ, ◌++◌, ◌+◌, ◌<◌, ◌∷◌, ◌≡◌,
}
use linklint.Redirect.{
  Authorization, AuthorizationRequest, Environment, FetchOutcome, FollowTransition, Response,
  TransitionDecision, blocked, follow, followed, granted, incomplete, refused, stop, success,
  terminal, threw,
}
use linklint.Redirect.Transition.{transition_for}
use linklint.Redirect.Loop.{
  Chain, ChainCall, ChainOptions, ChainState, Round, Stop, after_fetch, again, at_authorization,
  at_fetch, authorizes, done, fetches, hop_of, loop, member, request_of, round, subject_of,
}

-- The URLs that are fetched, in order.
abbrev pub fetched_urls : List ChainCall → List Text
fetched_urls [] = []
fetched_urls (authorizes q ∷ calls) = fetched_urls calls
fetched_urls (fetches hop url ∷ calls) = url ∷ fetched_urls calls

-- No URL stands among those before it.
abbrev pub Unseen : List Text → List Text → Type 0
Unseen seen [] = Unit
Unseen seen (url ∷ urls) = (member url seen ≡ false) × Unseen (url ∷ seen) urls

module _ {D I : Type 0} (env : Environment D I) (options : ChainOptions D) where
  -- The URL is new, there is room, and the authorizer and the transport let the hop through.
  pub record IsFetched (s : ChainState D I) (response : Response) : Type 0 where
    pub fresh : member s.current_url s.seen ≡ false
    pub room : length s.hops < options.max_hops
    pub authorized : env.authorize (request_of env options s) ≡ granted
    pub fetched : env.fetch (length s.hops + 1) s.current_url ≡ success response

  -- The calls of a round that fetches.
  abbrev pub both_calls : AuthorizationRequest → List ChainCall
  both_calls q = authorizes q ∷ fetches q.hop q.url ∷ []

  -- The calls of a round without a hop: none, one that does not grant, or both and no response.
  pub data Stopped (q : AuthorizationRequest) (calls : List ChainCall) : Type 0 where
    before_any : calls ≡ [] → Stopped q calls
    not_granted : env.authorize q ≢ granted → calls ≡ authorizes q ∷ [] → Stopped q calls
    not_fetched :
        env.authorize q ≡ granted
        → ((response : Response) → env.fetch q.hop q.url ≢ success response)
        → calls ≡ both_calls q
        → Stopped q calls

  -- The state after a hop that is followed.
  abbrev pub advance : ChainState D I → Response → FollowTransition D → ChainState D I
  advance s response t = record {
    hops = s.hops ++ hop_of env options s response (some t) ∷ [];
    calls = s.calls ++ both_calls (request_of env options s);
    seen = s.current_url ∷ s.seen;
    current_url = t.target_url;
    current_offline = env.inspect t.target_url;
    reason = followed t.kind;
    from_url = some s.current_url;
  }

  pub data RoundCase (s : ChainState D I) (r : Round D I) : Type 0 where
    halted :
        (why : Stop) (calls : List ChainCall)
        → Stopped (request_of env options s) calls
        → Unseen s.seen (fetched_urls calls)
        → r ≡ done (record { hops = s.hops; calls = s.calls ++ calls; stopped = some why })
        → RoundCase s r
    ended :
        (response : Response) (why : Option Stop)
        → IsFetched s response
        → r
          ≡ done (record {
            hops = s.hops ++ hop_of env options s response none ∷ [];
            calls = s.calls ++ both_calls (request_of env options s);
            stopped = why;
          })
        → RoundCase s r
    advanced :
        (response : Response) (t : FollowTransition D)
        → IsFetched s response
        → transition_for env response s.current_url options.method options.policy ≡ follow t
        → r ≡ again (advance s response t)
        → RoundCase s r

  -- What stands before the fetch of a round that gets there.
  abbrev seen_now : ChainState D I → ChainState D I
  seen_now s = record s {
    calls =
        (s.calls ++ authorizes (request_of env options s) ∷ [])
        ++ fetches (length s.hops + 1) s.current_url ∷ [];
    seen = s.current_url ∷ s.seen;
  }

  joined_calls :
      (s : ChainState D I) → (seen_now s).calls ≡ s.calls ++ both_calls (request_of env options s)
  joined_calls s =
      append_assoc s.calls (authorizes (request_of env options s) ∷ [])
        (fetches (length s.hops + 1) s.current_url ∷ [])

  abbrev asked_now : ChainState D I → ChainState D I
  asked_now s = record s { calls = s.calls ++ authorizes (request_of env options s) ∷ [] }

  halts :
      (s : ChainState D I) (why : Stop)
      → RoundCase s (done (record { hops = s.hops; calls = s.calls; stopped = some why }))
  halts s why = halted why [] (before_any refl) tt (rw (append-nil s.calls))

  -- A round that fetches to no avail.
  stops :
      (s : ChainState D I) (why : Stop)
      → member s.current_url s.seen ≡ false
      → Stopped (request_of env options s) (both_calls (request_of env options s))
      → RoundCase s
          (done (record { hops = s.hops; calls = (seen_now s).calls; stopped = some why }))
  stops s why new how =
      halted why (both_calls (request_of env options s)) how (new, tt) (rw (joined_calls s))

  after_fetch_case :
      (s : ChainState D I) (response : Response) (d : TransitionDecision D)
      → IsFetched s response
      → transition_for env response s.current_url options.method options.policy ≡ d
      → RoundCase s (after_fetch env options (seen_now s) response d)
  unfolding after_fetch
  after_fetch_case s response terminal f e = ended response none f (rw (joined_calls s))
  after_fetch_case s response (follow t) f e = advanced response t f e (rw (joined_calls s))
  after_fetch_case s response (stop status code url) f e = ended response _ f (
      ap
        (λ (calls : List ChainCall). done (record {
          hops = s.hops ++ hop_of env options s response none ∷ [];
          calls = calls;
          stopped = some (record {
            subject = subject_of env options url s.current_url;
            status = status;
            code = code;
          });
        }))
        (joined_calls s))

  at_fetch_case :
      (s : ChainState D I) (o : FetchOutcome)
      → member s.current_url s.seen ≡ false
      → length s.hops < options.max_hops
      → env.authorize (request_of env options s) ≡ granted
      → env.fetch (length s.hops + 1) s.current_url ≡ o
      → RoundCase s (at_fetch env options (seen_now s) o)
  unfolding at_fetch
  at_fetch_case s (success response) new room a e =
      after_fetch_case s response _
        (record { fresh = new; room = room; authorized = a; fetched = e }) refl
  at_fetch_case s (blocked cause) new room a e =
      stops s _ new (not_fetched a (λ response h. cc) refl)
  at_fetch_case s (incomplete cause) new room a e =
      stops s _ new (not_fetched a (λ response h. cc) refl)

  at_authorization_case :
      (s : ChainState D I) (a : Authorization)
      → member s.current_url s.seen ≡ false
      → length s.hops < options.max_hops
      → env.authorize (request_of env options s) ≡ a
      → RoundCase s (at_authorization env options (asked_now s) a)
  unfolding at_authorization
  at_authorization_case s threw new room e =
      halted _ (authorizes (request_of env options s) ∷ []) (not_granted (λ h. cc) refl) tt refl
  at_authorization_case s refused new room e =
      halted _ (authorizes (request_of env options s) ∷ []) (not_granted (λ h. cc) refl) tt refl
  at_authorization_case s granted new room e = at_fetch_case s _ new room e refl

  pub round_case : (s : ChainState D I) → RoundCase s (round env options s)
  unfolding round
  round_case s = elim (Bool-cases (env.aborted (length s.hops))) [
    | inl e ↦ rw e (halts s _)
    | inr e ↦ elim (Bool-cases (member s.current_url s.seen)) [
      | inl f ↦ rw (e, f) (halts s _)
      | inr f ↦ elim (Bool-cases (leb options.max_hops (length s.hops))) [
        | inl g ↦ rw (e, f, g) (halts s _)
        | inr g ↦ rw (e, f, g) (at_authorization_case s _ f (ground arith) refl)
      ]
    ]
  ]

  module _ (s : ChainState D I) (fuel : ℕ) where
    pub loop-done :
        {chain : Chain D I}
        → round env options s ≡ done chain
        → loop env options (suc fuel) s ≡ some chain
    unfolding loop
    loop-done e = rw (e, loop)

    pub loop-again :
        {s' : ChainState D I}
        → round env options s ≡ again s'
        → loop env options (suc fuel) s ≡ loop env options fuel s'
    unfolding loop
    loop-again e = rw (e, loop)

    pub loop-done_inv :
        {chain chain' : Chain D I}
        → round env options s ≡ done chain
        → loop env options (suc fuel) s ≡ some chain'
        → chain' ≡ chain
    loop-done_inv e h = cc (loop-done e)
