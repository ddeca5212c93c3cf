-- ===== src/Transport/Fetch/Pinned.antt =====
-- What a fetch of safe-transport.ts calls, and what it has checked before each call.
use linklint.Common.{
  ==_iff, Bool, Bool-cases, List, Option, String, Text, [], ap, codes, false, if_cases, inl, inr,
  is_empty, length, none, not, refl, some, text_eq, text_eq_iff, true, ℕ, ◌&&◌, ◌++◌, ◌==◌, ◌||◌,
  ◌∷◌, ◌≡◌, ◌⊎◌,
}
use linklint.Pin.{
  DnsAddress, PinResult, classify_transport_address, pin_destination, pinned, prohibited,
}
use linklint.Transport.{
  Answer, AttemptState, BodyEnd, ConnectRequest, Connection, HttpRequest, PortAnswers, PortCall,
  Runtime, SafeFetchRequest, SafeFetchResponse, SafeSession, Work, WorkEnd, body_hangs, body_threw,
  closes, connects, exceeds_header_budget, fulfilled, joined, rejected, remaining_time_ms, requests,
  resolves, returned, status_ok, success, unbracket,
}
use linklint.Transport.Codes.{Failure}
use linklint.Transport.Policy.{TransportPolicy}
use linklint.Transport.RequestHeaders.{UrlObject, same_origin_referer_value}
use linklint.Transport.Decoding.{Decoded, content_error, decoded, limit_error, unsupported_error}
use linklint.Transport.Exchange.{
  addresses_equal, after_call, and_close, closing, peer_matches, tls_matches, tls_names, with_body,
  with_connection, with_decoded, with_response,
}
use linklint.Transport.Fetch.Replies.{Replies, with_response-Replies}
use linklint.Transport.Fetch.{
  connect_request, execute, http_request, is_web, method_ok, with_candidate, with_checked_referer,
  with_pin, with_result, with_url,
}
use linklint.Pin.Answers.{pin_destination-IsSafe}

abbrev pub IsFailure : WorkEnd → Type 0
IsFailure (returned (success state response)) = ⊥
IsFailure _ = Unit

module _ (r : Runtime) (policy : TransportPolicy) (a : PortAnswers) where
  -- The URL that a request names: web, and with no credentials; the caller's authorization names it.
  pub record IsAccepted (request : SafeFetchRequest) (url : UrlObject) : Type 0 where
    pub parsed : r.parse_url request.url ≡ some url
    pub web : (url.protocol ≡ codes "http:") ⊎ (url.protocol ≡ codes "https:")
    pub bare : (url.username ≡ []) × (url.password ≡ [])

  -- The connection that is asked for: the URL's scheme and port, to the address that the resolver's
  -- answers are pinned to, and that no range refuses.
  pub record IsPinned (url : UrlObject) (c : ConnectRequest) : Type 0 where
    pub request : c ≡ connect_request r policy url c.address
    pub resolved : List String
    pub selected : DnsAddress
    pub pin :
        pin_destination r.pin a.resolve (r.string_of (unbracket url.hostname))
        ≡ some (pinned resolved selected)
    pub address : c.address ≡ selected.address
    pub allowed : (classify_transport_address r.pin c.address).allowed ≡ true

  -- The peer is the one that was asked for, and for `https:` it is authorized under the host's name.
  pub record IsVerified (c : ConnectRequest) (connection : Connection) : Type 0 where
    pub protocol : connection.protocol ≡ c.protocol
    pub port : connection.remote_port ≡ c.port
    pub address : addresses_equal r policy c.address connection.remote_address ≡ true
    pub tls : c.protocol ≡ codes "https:" → tls_names r policy c.hostname connection.tls ≡ true

  -- The calls, as far as they go, with what stands between them.
  pub data Trace (url : UrlObject) (w : Work) : Type 0 where
    only_resolved :
        w.calls ≡ resolves (unbracket url.hostname) ∷ [] → IsFailure w.ending → Trace url w
    not_connected :
        (c : ConnectRequest) (f : Failure)
        → IsPinned url c
        → a.connect c ≡ rejected f
        → w.calls ≡ resolves (unbracket url.hostname) ∷ connects c ∷ []
        → IsFailure w.ending
        → Trace url w
    not_verified :
        (c : ConnectRequest) (connection : Connection)
        → IsPinned url c
        → a.connect c ≡ fulfilled connection
        → w.calls ≡ resolves (unbracket url.hostname) ∷ connects c ∷ closes connection.id ∷ []
        → IsFailure w.ending
        → Trace url w
    requested :
        (c : ConnectRequest) (connection : Connection) (q : HttpRequest)
        → IsPinned url c
        → a.connect c ≡ fulfilled connection
        → IsVerified c connection
        → q.connection_id ≡ connection.id
        → q.url ≡ url.href
        → w.calls
          ≡ resolves (unbracket url.hostname)
            ∷ connects c
            ∷ requests q
            ∷ closing connection.id w.ending
        → Replies r policy a q w.ending
        → Trace url w

  and_true : (b c : Bool) → (b && c) ≡ true → (b ≡ true) × (c ≡ true)
  and_true true c h = (refl, h)
  and_true false c h = cc

  not-false : (b : Bool) → not b ≡ false → b ≡ true
  not-false true h = refl
  not-false false h = cc

  tls_clause : (b : Bool) (c : Bool) → (not b || c) ≡ true → b ≡ true → c ≡ true
  tls_clause true c h k = h
  tls_clause false c h k = cc

  verified :
      (c : ConnectRequest) (connection : Connection)
      → not (peer_matches r policy c connection) ≡ false
      → not (tls_matches r policy c connection) ≡ false
      → IsVerified c connection
  unfolding peer_matches tls_matches
  verified c connection h k =
      let outer = and_true _ _ (not-false _ h) in
      let inner = and_true (text_eq connection.protocol c.protocol) _ outer.0 in
      record {
        protocol = (text_eq_iff _ _).0 inner.0;
        port = (==_iff _ _).0 inner.1;
        address = outer.1;
        tls = λ e.
            tls_clause (text_eq c.protocol (codes "https:")) _ (not-false _ k)
              ((text_eq_iff c.protocol (codes "https:")).1 e);
      }

  -- The work after the request calls no port.
  abbrev Quiet : Work → Type 0
  Quiet w = w.calls ≡ []

  with_decoded-Quiet :
      (session : SafeSession) (state : AttemptState) (response : SafeFetchResponse) (encoded : ℕ)
      (d : Decoded)
      → Quiet (with_decoded r policy a session state response encoded d)
  with_decoded-Quiet session state response encoded (decoded body) =
      if_cases Quiet (remaining_time_ms policy session a.decoded_at == 0) (λ late. refl)
        (λ on. refl)
  with_decoded-Quiet session state response encoded limit_error = refl
  with_decoded-Quiet session state response encoded unsupported_error = refl
  with_decoded-Quiet session state response encoded content_error = refl

  with_body-Quiet :
      (session : SafeSession) (state : AttemptState) (response : SafeFetchResponse) (e : BodyEnd)
      → Quiet (with_body r policy a session state response e)
  with_body-Quiet session state response body_hangs = refl
  with_body-Quiet session state response (body_threw thrown) = refl
  with_body-Quiet session state response (joined encoded) =
      if_cases Quiet a.aborted_body (λ late. refl)
        (λ on. with_decoded-Quiet session state response (length encoded) _)

  with_response-Quiet :
      (session : SafeSession) (state : AttemptState) (response : Answer SafeFetchResponse)
      → Quiet (with_response r policy a session state response)
  unfolding with_response
  with_response-Quiet session state (rejected f) = refl
  with_response-Quiet session state (fulfilled response) =
      if_cases Quiet a.aborted_http (λ late. refl)
        (λ on.
          if_cases Quiet (not (status_ok response.status)) (λ bad. refl)
            (λ good.
              if_cases Quiet (exceeds_header_budget response.headers policy) (λ large. refl)
                (λ small. with_body-Quiet _ state response _)))

  abbrev Begun : UrlObject → ConnectRequest → Work → Work
  Begun url c w = after_call (resolves (unbracket url.hostname)) (after_call (connects c) w)

  connection-Trace :
      (session : SafeSession) (state : AttemptState) (request : SafeFetchRequest) (url : UrlObject)
      (referer : Option Text) (c : ConnectRequest)
      → IsPinned url c
      → (m : Answer Connection) → a.connect c ≡ m
      → Trace url (
          Begun url c (
            with_connection r policy a session state c
              (http_request r policy request url referer)
              m))
  unfolding with_connection
  connection-Trace session state request url referer c h (rejected f) e =
      not_connected c f h e refl tt
  connection-Trace session state request url referer c h (fulfilled connection) e =
      let P = λ (w : Work). Trace url (Begun url c (and_close connection.id w)) in
      let q = http_request r policy request url referer connection in
      if_cases P a.aborted_connect (λ late. not_verified c connection h e refl tt)
        (λ on.
          if_cases P (not (peer_matches r policy c connection))
            (λ bad. not_verified c connection h e refl tt)
            (λ peer.
              if_cases P (not (tls_matches r policy c connection))
                (λ bad. not_verified c connection h e refl tt)
                (λ tls.
                  let w =
                    with_response r policy a session (record state { tls = connection.tls })
                      (a.request q) in
                  requested c connection q h e (verified c connection peer tls) refl refl
                    (ap
                      (λ (calls : List PortCall).
                        resolves (unbracket url.hostname)
                        ∷ connects c
                        ∷ requests q
                        ∷ (calls ++ closing connection.id w.ending))
                      (with_response-Quiet session (record state { tls = connection.tls })
                        (a.request q)))
                    (with_response-Replies r policy a q session
                      (record state { tls = connection.tls }) (a.request q) refl))))

  abbrev Resolving : UrlObject → Work → Work
  Resolving url w = after_call (resolves (unbracket url.hostname)) w

  result-Trace :
      (session : SafeSession) (state : AttemptState) (request : SafeFetchRequest) (url : UrlObject)
      (referer : Option Text) (result : PinResult)
      → pin_destination r.pin a.resolve (r.string_of (unbracket url.hostname)) ≡ some result
      → Trace url (Resolving url (with_result r policy a session state request url referer result))
  result-Trace session state request url referer (PinResult.dns_not_found s) e =
      only_resolved refl tt
  result-Trace session state request url referer (PinResult.dns_malformed s) e =
      only_resolved refl tt
  result-Trace session state request url referer (prohibited s address c) e = only_resolved refl tt
  result-Trace session state request url referer (pinned s selected) e =
      let (rest, given, same, safe) =
        pin_destination-IsSafe r.pin a.resolve (r.string_of (unbracket url.hostname)) s selected
          e in
      connection-Trace session _ request url referer (connect_request r policy url selected.address)
        (record {
          request = refl;
          resolved = s;
          selected = selected;
          pin = e;
          address = refl;
          allowed = safe.0.0;
        })
        (a.connect (connect_request r policy url selected.address)) refl

  pin-Trace :
      (session : SafeSession) (state : AttemptState) (request : SafeFetchRequest) (url : UrlObject)
      (referer : Option Text) (m : Option PinResult)
      → pin_destination r.pin a.resolve (r.string_of (unbracket url.hostname)) ≡ m
      → Trace url (Resolving url (with_pin r policy a session state request url referer m))
  unfolding with_pin
  pin-Trace session state request url referer none e = only_resolved refl tt
  pin-Trace session state request url referer (some result) e =
      if_cases (λ w. Trace url (Resolving url w)) a.aborted_dns (λ late. only_resolved refl tt)
        (λ on. result-Trace session state request url referer result e)

  -- No port is called, or those of an accepted URL in the order of the trace.
  abbrev pub IsGuarded : SafeFetchRequest → Work → Type 0
  IsGuarded request w =
      ((w.calls ≡ []) × IsFailure w.ending)
      ⊎ ((url : UrlObject) × IsAccepted request url × Trace url w)

  checked-IsGuarded :
      (session : SafeSession) (state : AttemptState) (request : SafeFetchRequest) (url : UrlObject)
      (value : Option Text)
      → IsAccepted request url
      → IsGuarded request (with_checked_referer r policy a session state request url value)
  checked-IsGuarded session state request url none h = inl (refl, tt)
  checked-IsGuarded session state request url (some referer) h =
      inr (url, h, pin-Trace session _ request url (some referer) _ refl)

  candidate-IsGuarded :
      (session : SafeSession) (state : AttemptState) (request : SafeFetchRequest) (url : UrlObject)
      (candidate : Option Text)
      → IsAccepted request url
      → IsGuarded request (with_candidate r policy a session state request url candidate)
  candidate-IsGuarded session state request url none h =
      inr (url, h, pin-Trace session _ request url none _ refl)
  candidate-IsGuarded session state request url (some candidate) h =
      checked-IsGuarded session state request url
        (same_origin_referer_value r.parse_url url candidate) h

  nothing_else : (t u : Text) → (not (is_empty t) || not (is_empty u)) ≡ false → (t ≡ []) × (u ≡ [])
  nothing_else [] [] h = (refl, refl)
  nothing_else [] (c ∷ cs) h = cc
  nothing_else (c ∷ cs) u h = cc

  web_of :
      (protocol : Text)
      → not (is_web r policy protocol) ≡ false
      → (protocol ≡ codes "http:") ⊎ (protocol ≡ codes "https:")
  web_of protocol h = elim (Bool-cases (text_eq protocol (codes "http:"))) [
    | inl http ↦ inl ((text_eq_iff protocol (codes "http:")).0 http)
    | inr other ↦
        let e : not (text_eq protocol (codes "https:")) ≡ false = rw other at h in
        inr ((text_eq_iff protocol (codes "https:")).0 (not-false _ e))
  ]

  accepted :
      (request : SafeFetchRequest) (url : UrlObject)
      → r.parse_url request.url ≡ some url
      → not (is_web r policy url.protocol) ≡ false
      → (not (is_empty url.username) || not (is_empty url.password)) ≡ false
      → IsAccepted request url
  accepted request url e web bare = record {
    parsed = e;
    web = web_of url.protocol web;
    bare = nothing_else url.username url.password bare;
  }

  url-IsGuarded :
      (session : SafeSession) (state : AttemptState) (request : SafeFetchRequest)
      (m : Option UrlObject)
      → r.parse_url request.url ≡ m
      → IsGuarded request (with_url r policy a session state request m)
  url-IsGuarded session state request none e = inl (refl, tt)
  url-IsGuarded session state request (some url) e =
      let P = IsGuarded request in
      if_cases P (not (is_web r policy url.protocol)) (λ other. inl (refl, tt))
        (λ web.
          if_cases P (not (method_ok r policy request.method)) (λ bad. inl (refl, tt))
            (λ good.
              if_cases P (not (is_empty url.username) || not (is_empty url.password))
                (λ credentials. inl (refl, tt))
                (λ bare.
                  candidate-IsGuarded session state request url request.same_origin_referer
                    (accepted request url e web bare))))

  pub execute-IsGuarded :
      (session : SafeSession) (state : AttemptState) (request : SafeFetchRequest)
      → IsGuarded request (execute r policy a session state request)
  unfolding execute
  execute-IsGuarded session state request =
      url-IsGuarded session state request (r.parse_url request.url) refl
