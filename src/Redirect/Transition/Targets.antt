-- ===== src/Redirect/Transition/Targets.antt =====
-- Which targets `transitionFor` follows (packages/online/src/resolution/redirect-chain.ts).
use mathlib.Core.Path.{subst}
use linklint.Common.{
  Bool-cases, Option, Text, arith, false, inl, inr, length, ltb, none, not, refl, some, trim, true,
  ◌||◌, ◌≡◌, ◌≢◌, ◌≤◌,
}
use linklint.Redirect.{
  Environment, FollowTransition, OutcomeStatus, RefreshPolicy, Response, TransitionDecision,
  TransitionKind, TransportMethod, Url, follow, get, head, html_meta_refresh, http_redirect,
  http_refresh, max_chain_url_length, stop,
}
use linklint.Redirect.Transition.{
  SingleHeader, ambiguous, at_delay, at_location, at_match, at_meta, at_refresh, at_target, at_text,
  at_type, is_html, is_http, is_redirect, match_refresh, missing, parse_refresh_transition,
  refresh_eligibility, resolve_transition, scan_body, transition_for, value,
}

module _ {D I : Type 0} (env : Environment D I) where
  -- The delay of a refresh is within the limit, and an HTTP redirect has none.
  abbrev pub IsTimely : D → TransitionKind → Option D → Type 0
  IsTimely limit http_redirect delay = delay ≡ none
  IsTimely limit kind none = ⊥
  IsTimely limit kind (some d) = env.exceeds d limit ≡ false

  -- The target is an http(s) URL, of bounded length, that the platform reads off the response
  -- against the current URL; a HEAD response is not scanned for a refresh tag.
  pub record IsAllowed (current_url : Text) (method : TransportMethod) (limit : D)
      (t : FollowTransition D) : Type 0 where
    pub raw : Text
    pub url : Url
    pub parsed : env.parse_url raw current_url ≡ some url
    pub target : t.target_url ≡ url.href
    pub http : is_http url.protocol ≡ true
    pub short : length t.target_url ≤ max_chain_url_length
    pub timely : IsTimely limit t.kind t.delay_ms
    pub scanned : method ≡ head → t.kind ≢ html_meta_refresh

  abbrev Allows : Text → TransportMethod → D → TransitionDecision D → Type 0
  Allows current_url method limit d =
      (t : FollowTransition D) → d ≡ follow t → IsAllowed current_url method limit t

  follow-Allows :
      (current_url : Text) (method : TransportMethod) (limit : D) (s : FollowTransition D)
      → IsAllowed current_url method limit s
      → Allows current_url method limit (follow s)
  follow-Allows current_url method limit s a t e = subst (IsAllowed current_url method limit) (cc) a

  module _ (current_url : Text) (method : TransportMethod) (limit : D) where
    at_target-Allows :
        (kind : TransitionKind) (raw : Text) (delay : Option D) (o : Option Url)
        → env.parse_url raw current_url ≡ o
        → IsTimely limit kind delay
        → (method ≡ head → kind ≢ html_meta_refresh)
        → Allows current_url method limit (at_target env kind delay o)
    unfolding at_target
    at_target-Allows kind raw delay none e timely scanned = λ t q. cc
    at_target-Allows kind raw delay (some url) e timely scanned =
        elim (Bool-cases
          (not (is_http url.protocol) || ltb max_chain_url_length (length url.href))) [
            | inl far ↦ rw far (λ t q. cc)
            | inr near ↦ rw near (
                follow-Allows current_url method limit _ (record {
                  raw = raw;
                  url = url;
                  parsed = e;
                  target = refl;
                  http = ground arith;
                  short = ground arith;
                  timely = timely;
                  scanned = scanned;
                }))
          ]

    resolve_transition-Allows :
        (kind : TransitionKind) (raw : Text) (delay : Option D)
        → IsTimely limit kind delay
        → (method ≡ head → kind ≢ html_meta_refresh)
        → Allows current_url method limit (resolve_transition env kind raw current_url delay)
    unfolding resolve_transition
    resolve_transition-Allows kind raw delay timely scanned =
        at_target-Allows kind (trim raw) delay (env.parse_url (trim raw) current_url) refl timely
          scanned

    -- What allows nothing stops or ends the chain.
    stop-Allows :
        (status : OutcomeStatus) (code : Text) (url : Option Text)
        → Allows current_url method limit (stop status code url)
    stop-Allows status code url t q = cc

    at_delay-Allows :
        (kind : TransitionKind) (raw : Text) (o : Option D)
        → kind ≢ http_redirect
        → (method ≡ head → kind ≢ html_meta_refresh)
        → Allows current_url method limit (at_delay env kind current_url limit raw o)
    unfolding at_delay
    at_delay-Allows kind raw none refresh scanned = stop-Allows _ _ _
    at_delay-Allows kind raw (some d) refresh scanned = elim (Bool-cases (env.exceeds d limit)) [
      | inl late ↦ rw late (stop-Allows _ _ _)
      | inr soon ↦
          rw soon (resolve_transition-Allows kind _ (some d) (timely kind refresh soon) scanned)
    ]
      where
        timely :
            (k : TransitionKind)
            → k ≢ http_redirect
            → env.exceeds d limit ≡ false
            → IsTimely limit k (some d)
        timely http_redirect n e = absurd (n refl)
        timely http_refresh n e = e
        timely html_meta_refresh n e = e

    at_match-Allows :
        (kind : TransitionKind) (o : Option (Text × Text))
        → kind ≢ http_redirect
        → (method ≡ head → kind ≢ html_meta_refresh)
        → Allows current_url method limit (at_match env kind current_url limit o)
    unfolding at_match
    at_match-Allows kind none refresh scanned = stop-Allows _ _ _
    at_match-Allows kind (some (number, raw)) refresh scanned =
        at_delay-Allows kind raw (env.delay number) refresh scanned

    parse_refresh_transition-Allows :
        (kind : TransitionKind) (text : Text)
        → kind ≢ http_redirect
        → (method ≡ head → kind ≢ html_meta_refresh)
        → Allows current_url method limit (parse_refresh_transition env kind text current_url limit)
    unfolding parse_refresh_transition
    parse_refresh_transition-Allows kind text refresh scanned =
        at_match-Allows kind (match_refresh text) refresh scanned

    at_text-Allows :
        (o : Option Text) (continue : Text → TransitionDecision D)
        → ((text : Text) → Allows current_url method limit (continue text))
        → Allows current_url method limit (at_text env o continue)
    unfolding at_text
    at_text-Allows none continue h = stop-Allows _ _ _
    at_text-Allows (some text) continue h = h text

    at_type-Allows :
        (response : Response) (o : Option (Text × Option Text)) (d : TransitionDecision D)
        → Allows current_url method limit d
        → Allows current_url method limit (at_type env response o d)
    unfolding at_type
    at_type-Allows response none d h = stop-Allows _ _ _
    at_type-Allows response (some (media, charset)) d h = elim (Bool-cases (is_html media)) [
      | inl html ↦ rw html (at_text-Allows (env.decode_html response.body charset) _ (λ _. h))
      | inr other ↦ rw other (stop-Allows _ _ _)
    ]

    at_meta-Allows :
        (o : Option Text)
        → (method ≡ head → ⊥)
        → Allows current_url method limit (at_meta env current_url limit o)
    unfolding at_meta
    at_meta-Allows none got = λ t q. cc
    at_meta-Allows (some content) got =
        parse_refresh_transition-Allows html_meta_refresh content (λ e. cc) (λ h e. got h)

  module _ (current_url : Text) (policy : RefreshPolicy D) (response : Response) where
    scan_body-Allows :
        (method : TransportMethod) (o : Option (Text × Option Text))
        → Allows current_url method policy.max_delay_ms
            (scan_body env response current_url method policy o)
    unfolding scan_body
    scan_body-Allows head o = λ t q. cc
    scan_body-Allows get none = λ t q. cc
    scan_body-Allows get (some (media, charset)) = elim (Bool-cases (not (is_html media))) [
      | inl other ↦ rw other (λ t q. cc)
      | inr html ↦ elim (Bool-cases (ltb policy.max_bytes (length response.body))) [
        | inl large ↦ rw (html, large) (stop-Allows current_url get policy.max_delay_ms _ _ _)
        | inr small ↦
            rw (html, small)
              (at_text-Allows current_url get policy.max_delay_ms
                (env.decode_html response.body charset) _
                (λ text.
                  at_meta-Allows current_url get policy.max_delay_ms (env.meta_refresh text)
                    (λ e. cc)))
      ]
    ]

    at_refresh-Allows :
        (method : TransportMethod) (o : Option (Text × Option Text)) (header : SingleHeader)
        → Allows current_url method policy.max_delay_ms
            (at_refresh env response current_url method policy o header)
    unfolding at_refresh refresh_eligibility
    at_refresh-Allows method o missing = scan_body-Allows method o
    at_refresh-Allows method o ambiguous = stop-Allows current_url method policy.max_delay_ms _ _ _
    at_refresh-Allows method o (value refresh) =
        elim (Bool-cases (ltb policy.max_bytes (length response.body))) [
          | inl large ↦ rw large (stop-Allows current_url method policy.max_delay_ms _ _ _)
          | inr small ↦ rw small (
              at_type-Allows current_url method policy.max_delay_ms response o _ (
                parse_refresh_transition-Allows current_url method policy.max_delay_ms http_refresh
                  refresh (λ e. cc) (λ _ e. cc)))
        ]

    at_location-Allows :
        (method : TransportMethod) (header : SingleHeader)
        → Allows current_url method policy.max_delay_ms (at_location env current_url header)
    unfolding at_location
    at_location-Allows method missing = stop-Allows current_url method policy.max_delay_ms _ _ _
    at_location-Allows method ambiguous = stop-Allows current_url method policy.max_delay_ms _ _ _
    at_location-Allows method (value location) =
        resolve_transition-Allows current_url method policy.max_delay_ms http_redirect location none
          refl (λ _ e. cc)

-- A target is followed only if it is an http(s) URL of at most 16384 code units that the platform
-- resolved against the current URL; a refresh only within the delay limit, and a refresh tag never
-- on a HEAD response.
pub transition_for-IsAllowed :
    {D I : Type 0} (env : Environment D I) (response : Response) (current_url : Text)
    (method : TransportMethod) (policy : RefreshPolicy D) (t : FollowTransition D)
    → transition_for env response current_url method policy ≡ follow t
    → IsAllowed env current_url method policy.max_delay_ms t
unfolding transition_for
transition_for-IsAllowed env response current_url method policy t e =
    elim (Bool-cases (is_redirect response.status)) [
      | inl yes' ↦ at_location-Allows env current_url policy response method _ t (rw yes' at e)
      | inr no' ↦ at_refresh-Allows env current_url policy response method _ _ t (rw no' at e)
    ]
