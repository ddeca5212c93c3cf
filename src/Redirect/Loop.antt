-- ===== src/Redirect/Loop.antt =====
-- The loop of `enrich` in packages/online/src/resolution/redirect-chain.ts. A hop keeps what the
-- loop and its readers use of it; the outcome of a stop keeps its subject, its status and its code.
pub mod Rounds
pub mod Budget
pub mod Links
use linklint.Common.{
  Bool, List, Option, Text, [], any, codes, if◌then◌else◌, leb, length, ltb, none, not, some, suc,
  text_eq, zero, ℕ, ◌++◌, ◌+◌, ◌||◌, ◌∷◌,
}
use linklint.Redirect.{
  Authorization, AuthorizationReason, AuthorizationRequest, Environment, FetchOutcome,
  FollowTransition, OutcomeStatus, RefreshPolicy, Response, TransitionDecision, TransportMethod,
  Url, blocked, failure, follow, followed, granted, incomplete, initial, max_chain_url_length,
  refused, skipped, stop, success, terminal, threw,
}
use linklint.Redirect.Transition.{is_http, transition_for}

pub record ChainHop (D I : Type 0) : Type 0 where
  pub url : Text
  pub hop : ℕ
  pub reason : AuthorizationReason
  pub from_url : Option Text
  pub response : Response
  pub offline : I
  pub transition : Option (FollowTransition D)

pub record Stop : Type 0 where
  pub subject : Text
  pub status : OutcomeStatus
  pub code : Text

-- The calls of the authorizer and of the transport, in order.
pub data ChainCall : Type 0 where
  authorizes : AuthorizationRequest → ChainCall
  fetches : (hop : ℕ) (url : Text) → ChainCall

-- The variables of the loop, and the calls so far. Hops are listed in order, and a seen URL joins
-- at the front.
pub record ChainState (D I : Type 0) : Type 0 where
  pub hops : List (ChainHop D I)
  pub calls : List ChainCall
  pub seen : List Text
  pub current_url : Text
  pub current_offline : I
  pub reason : AuthorizationReason
  pub from_url : Option Text

-- What the loop leaves: the hops, the calls it made and at most one stop. The source's array never
-- gets a second.
pub record Chain (D I : Type 0) : Type 0 where
  pub hops : List (ChainHop D I)
  pub calls : List ChainCall
  pub stopped : Option Stop

-- One round either ends the loop or goes on.
pub data Round (D I : Type 0) : Type 0 where
  done : Chain D I → Round D I
  again : ChainState D I → Round D I

abbrev pub member : Text → List Text → Bool
member url urls = any (text_eq url) urls

pub record ChainOptions (D : Type 0) : Type 0 where
  pub method : TransportMethod
  pub max_hops : ℕ
  pub policy : RefreshPolicy D

module _ {D I : Type 0} (env : Environment D I) (options : ChainOptions D) where
  abbrev halt : ChainState D I → OutcomeStatus → Text → Round D I
  halt s status code = done (record {
    hops = s.hops;
    calls = s.calls;
    stopped = some (record { subject = s.current_url; status = status; code = code });
  })

  transition_of : TransitionDecision D → Option (FollowTransition D)
  transition_of terminal = none
  transition_of (follow t) = some t
  transition_of (stop status code url) = none

  abbrev hop_of : ChainState D I → Response → Option (FollowTransition D) → ChainHop D I
  hop_of s response transition = record {
    url = s.current_url;
    hop = length s.hops + 1;
    reason = s.reason;
    from_url = s.from_url;
    response = response;
    offline = s.current_offline;
    transition = transition;
  }

  abbrev pub subject_of : Option Text → Text → Text
  subject_of none current = current
  subject_of (some target) current = target

  -- After the push of the hop.
  after_fetch : ChainState D I → Response → TransitionDecision D → Round D I
  after_fetch s response terminal =
      done
        (record { hops = s.hops ++ hop_of s response none ∷ []; calls = s.calls; stopped = none })
  after_fetch s response (stop status code url) = done (record {
    hops = s.hops ++ hop_of s response none ∷ [];
    calls = s.calls;
    stopped =
        some (record { subject = subject_of url s.current_url; status = status; code = code });
  })
  after_fetch s response (follow t) = again (record {
    hops = s.hops ++ hop_of s response (some t) ∷ [];
    calls = s.calls;
    seen = s.seen;
    current_url = t.target_url;
    current_offline = env.inspect t.target_url;
    reason = followed t.kind;
    from_url = some s.current_url;
  })

  at_fetch : ChainState D I → FetchOutcome → Round D I
  unfolding after_fetch
  at_fetch s (success response) =
      after_fetch s response
        (transition_for env response s.current_url options.method options.policy)
  at_fetch s (blocked cause) = halt s skipped cause
  at_fetch s (incomplete cause) = halt s failure cause

  at_authorization : ChainState D I → Authorization → Round D I
  unfolding at_fetch
  at_authorization s threw = halt s failure (codes "authorization-error")
  at_authorization s refused = halt s skipped (codes "authorization-denied")
  at_authorization s granted =
      let s' = record s {
        calls = s.calls ++ fetches (length s.hops + 1) s.current_url ∷ [];
        seen = s.current_url ∷ s.seen;
      } in
      at_fetch s' (env.fetch (length s.hops + 1) s.current_url)

  abbrev pub request_of : ChainState D I → AuthorizationRequest
  request_of s = record {
    url = s.current_url;
    hop = length s.hops + 1;
    method = options.method;
    reason = s.reason;
    from_url = s.from_url;
  }

  -- The body of the `while (true)`.
  unfoldable pub round : ChainState D I → Round D I
  unfolding at_authorization
  round s =
      if env.aborted (length s.hops)
      then halt s skipped (codes "caller-aborted")
      else if member s.current_url s.seen
      then halt s failure (codes "redirect-loop")
      else if leb options.max_hops (length s.hops)
      then halt s failure (codes "hop-limit")
      else at_authorization (record s { calls = s.calls ++ authorizes (request_of s) ∷ [] })
          (env.authorize (request_of s))

  -- The loop on fuel; `none` means that the fuel ran out.
  unfoldable pub loop : ℕ → ChainState D I → Option (Chain D I)
  loop zero s = none
  loop (suc fuel) s = elim (round s) [ done chain ↦ some chain | again s' ↦ loop fuel s' ]

  abbrev pub start : Text → ChainState D I
  start url = record {
    hops = [];
    calls = [];
    seen = [];
    current_url = url;
    current_offline = env.inspect url;
    reason = initial;
    from_url = none;
  }

  -- `enrich` from the canonical input URL on, with a round for each hop and one to stop.
  unfoldable pub enrich : Text → Option (Chain D I)
  unfolding loop
  enrich url = loop (options.max_hops + 1) (start url)

  canonical_of : Option (Url × Text) → Option Text
  canonical_of none = none
  canonical_of (some (url, cleared)) =
      if not (is_http url.protocol) || ltb max_chain_url_length (length url.href)
      then none
      else some cleared

  -- `canonicalHttpUrl`
  unfoldable pub canonical_http_url : Text → Option Text
  unfolding canonical_of
  canonical_http_url input = canonical_of (env.parse_absolute input)

  enrich_from : Text → Option Text → Option (Chain D I)
  enrich_from input none = some (record {
    hops = [];
    calls = [];
    stopped = some (record { subject = input; status = failure; code = codes "invalid-target" });
  })
  enrich_from input (some url) = enrich url

  -- `enrich` on the inspected input.
  unfoldable pub enrich_input : Text → Option (Chain D I)
  unfolding enrich_from
  enrich_input input = enrich_from input (canonical_http_url input)
