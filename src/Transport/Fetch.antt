-- ===== src/Transport/Fetch.antt =====
-- packages/online/src/transport/safe-transport.ts: one fetch of a session, from the checks before it
-- to its outcome.
pub mod Reading
pub mod Spending
pub mod Budgets
pub mod Replies
pub mod Pinned
pub mod Guarded
use linklint.Common.{
  Bool, List, Option, String, Text, [], codes, if◌then◌else◌, is_empty, ltb, none, not, some, suc,
  text_eq, true, ℕ, ◌==◌, ◌||◌, ◌∷◌,
}
use linklint.Pin.{PinResult, dns_malformed, dns_not_found, pin_destination, pinned, prohibited}
use linklint.Transport.{
  AttemptState, ConnectRequest, Connection, HttpRequest, PortAnswers, PortCall, Runtime,
  SafeFetchOutcome, SafeFetchRequest, SafeSession, Thrown, Work, WorkEnd, address_details, blocked,
  budget_details, budget_error, coded_error, connects, deadline_error, effective_port, hangs,
  incomplete, limit_details, no_details, operation_error, remaining_time_ms, resolves, returned,
  scheme_details, threw, unbracket,
}
use linklint.Transport.Codes.{
  TransportCauseCode, authorization_required, caller_aborted, dns_phase, dns_timeout, hop_limit,
  invalid_url, operation_cause, prohibited_address, referer_not_same_origin, timeout,
  unsupported_method, unsupported_scheme, url_credentials,
}
use linklint.Transport.Policy.{TransportPolicy}
use linklint.Transport.RequestHeaders.{UrlObject, destination_headers, same_origin_referer_value}
use linklint.Transport.Exchange.{after_call, blocks, throws, with_connection}

-- The session, the calls of the ports and the outcome.
pub record Fetched : Type 0 where
  pub session : SafeSession
  pub calls : List PortCall
  pub outcome : SafeFetchOutcome

module _ (r : Runtime) (policy : TransportPolicy) where
  abbrev pub connect_request : UrlObject → String → ConnectRequest
  connect_request url address = record {
    protocol = url.protocol;
    hostname = unbracket url.hostname;
    address = address;
    port = effective_port url;
    server_name =
        if text_eq url.protocol (codes "https:") then some (unbracket url.hostname) else none;
  }

  abbrev pub method_or : Option Text → Text
  method_or none = codes "GET"
  method_or (some method) = method

  abbrev pub http_request : SafeFetchRequest → UrlObject → Option Text → Connection → HttpRequest
  http_request request url referer connection = record {
    connection_id = connection.id;
    url = url.href;
    method = method_or request.method;
    headers = destination_headers r.lower url.host_text request.headers referer;
  }

  abbrev pub resolved_state : AttemptState → List String → AttemptState
  resolved_state state resolved = record state { resolved_addresses = some resolved }

  abbrev pub connected :
      PortAnswers
      → SafeSession
      → AttemptState
      → SafeFetchRequest
      → UrlObject
      → Option Text
      → String
      → Work
  connected a session state request url referer address =
      let request' = connect_request url address in
      after_call (connects request') (
        with_connection r policy a session (record state { selected_address = some address })
          request' (http_request request url referer) (a.connect request'))

  abbrev pub with_result :
      PortAnswers
      → SafeSession
      → AttemptState
      → SafeFetchRequest
      → UrlObject
      → Option Text
      → PinResult
      → Work
  with_result a session state request url referer (PinResult.dns_not_found resolved) =
      throws session (coded_error dns_phase TransportCauseCode.dns_not_found)
  with_result a session state request url referer (PinResult.dns_malformed resolved) =
      throws session (coded_error dns_phase TransportCauseCode.dns_malformed)
  with_result a session state request url referer (prohibited resolved address category) =
      blocks session (resolved_state state resolved) prohibited_address
        (address_details address category)
  with_result a session state request url referer (pinned resolved selected) =
      connected a session (resolved_state state resolved) request url referer selected.address

  unfoldable pub with_pin :
      PortAnswers
      → SafeSession
      → AttemptState
      → SafeFetchRequest
      → UrlObject
      → Option Text
      → Option PinResult
      → Work
  unfolding with_connection destination_headers effective_port unbracket
  with_pin a session state request url referer none =
      throws session (operation_error dns_phase a.resolve_failure)
  with_pin a session state request url referer (some result) =
      if a.aborted_dns
      then throws session (coded_error dns_phase dns_timeout)
      else with_result a session state request url referer result

  abbrev pub url_state : AttemptState → UrlObject → AttemptState
  url_state state url = record state {
    subject = url.href;
    protocol = some url.protocol;
    hostname = some (unbracket url.hostname);
    port = some (effective_port url);
  }

  abbrev pub dispatched :
      PortAnswers → SafeSession → AttemptState → SafeFetchRequest → UrlObject → Option Text → Work
  dispatched a session state request url referer =
      let hostname = unbracket url.hostname in
      after_call (resolves hostname) (
        with_pin a session (url_state state url) request url referer
          (pin_destination r.pin a.resolve (r.string_of hostname)))

  abbrev pub with_checked_referer :
      PortAnswers → SafeSession → AttemptState → SafeFetchRequest → UrlObject → Option Text → Work
  with_checked_referer a session state request url none =
      blocks session state referer_not_same_origin no_details
  with_checked_referer a session state request url (some referer) =
      dispatched a session state request url (some referer)

  abbrev pub with_candidate :
      PortAnswers → SafeSession → AttemptState → SafeFetchRequest → UrlObject → Option Text → Work
  with_candidate a session state request url none = dispatched a session state request url none
  with_candidate a session state request url (some candidate) =
      with_checked_referer a session state request url
        (same_origin_referer_value r.parse_url url candidate)

  abbrev pub method_ok : Option Text → Bool
  method_ok none = true
  method_ok (some method) = text_eq method (codes "GET") || text_eq method (codes "HEAD")

  abbrev pub is_web : Text → Bool
  is_web protocol = text_eq protocol (codes "http:") || text_eq protocol (codes "https:")

  abbrev pub with_url :
      PortAnswers → SafeSession → AttemptState → SafeFetchRequest → Option UrlObject → Work
  with_url a session state request none = blocks session state invalid_url no_details
  with_url a session state request (some url) =
      if not (is_web url.protocol)
      then blocks session state unsupported_scheme (scheme_details url.protocol)
      else if not (method_ok request.method)
      then blocks session state unsupported_method no_details
      else if not (is_empty url.username) || not (is_empty url.password)
      then blocks session state url_credentials no_details
      else with_candidate a session state request url request.same_origin_referer

  unfoldable pub execute : PortAnswers → SafeSession → AttemptState → SafeFetchRequest → Work
  unfolding with_pin same_origin_referer_value pin_destination
  execute a session state request = with_url a session state request (r.parse_url request.url)

  -- The `catch` of the race.
  abbrev pub caught : PortAnswers → Thrown → SafeFetchOutcome
  caught a deadline_error = incomplete timeout no_details
  caught a (budget_error code) =
      if a.caller_aborted
      then incomplete caller_aborted no_details
      else incomplete code (budget_details code policy)
  caught a (operation_error phase f) =
      let code = operation_cause phase f in
      if a.caller_aborted
      then incomplete caller_aborted no_details
      else incomplete code (budget_details code policy)

  abbrev pub outcome_of : PortAnswers → WorkEnd → SafeFetchOutcome
  outcome_of a hangs = incomplete timeout no_details
  outcome_of a (returned outcome) = outcome
  outcome_of a (threw thrown) = caught a thrown

  -- The race of the work and the deadline; work that never settles loses it.
  abbrev pub raced : PortAnswers → Work → SafeFetchOutcome
  raced a work =
      if a.deadline_first then incomplete timeout no_details else outcome_of a work.ending

  abbrev pub first_state : SafeSession → SafeFetchRequest → AttemptState
  first_state session request = record {
    subject = request.url;
    hop = suc session.hops;
    protocol = none;
    hostname = none;
    port = none;
    resolved_addresses = none;
    selected_address = none;
    tls = none;
  }

  abbrev pub not_fetched : SafeSession → SafeFetchOutcome → Fetched
  not_fetched session outcome = record { session = session; calls = []; outcome = outcome }

  abbrev pub of_work : PortAnswers → Work → Fetched
  of_work a work = record { session = work.session; calls = work.calls; outcome = raced a work }

  unfoldable pub fetch : PortAnswers → SafeSession → SafeFetchRequest → Fetched
  unfolding execute operation_cause budget_details
  fetch a session request =
      let state = first_state session request in
      if not request.destination_fetch || not (text_eq request.authorized_url request.url)
      then not_fetched session (blocked state authorization_required no_details)
      else if ltb policy.max_hops (suc session.hops)
      then not_fetched session
          (incomplete hop_limit (limit_details (("maxHops", policy.max_hops) ∷ [])))
      else if a.aborted_before
      then not_fetched session (incomplete caller_aborted no_details)
      else if remaining_time_ms policy session a.started_at == 0
      then not_fetched session (incomplete timeout no_details)
      else of_work a (execute a (record session { hops = suc session.hops }) state request)

  -- The fetches of a session, one after the other: the session at the end, and each fetch.
  unfoldable pub fetch_all :
      SafeSession → List (PortAnswers × SafeFetchRequest) → SafeSession × List Fetched
  unfolding fetch
  fetch_all session [] = (session, [])
  fetch_all session ((a, request) ∷ rest) =
      let fetched = fetch a session request in
      let more = fetch_all fetched.session rest in (more.0, fetched ∷ more.1)

abbrev pub create_session : ℕ → SafeSession
create_session now = record {
  started_at_ms = now;
  hops = 0;
  encoded_bytes = 0;
  decompressed_bytes = 0;
}
