-- ===== src/Transport/Exchange.antt =====
-- packages/online/src/transport/safe-transport.ts: `execute` from its connection on, to the outcome of
-- the response.
use linklint.Common.{
  Bool, List, Option, String, Text, [], codes, false, if◌then◌else◌, length, none, not, some,
  text_eq, true, ℕ, ◌&&◌, ◌++◌, ◌+◌, ◌-◌, ◌==◌, ◌||◌, ◌∷◌,
}
use linklint.Pin.{is_family}
use linklint.Transport.{
  Answer, AttemptState, BodyEnd, ConnectRequest, Connection, Details, HttpRequest, PortAnswers,
  PortCall, Runtime, SafeFetchResponse, SafeSession, SuccessResponse, Thrown, Tls, Work, WorkEnd,
  blocked, body_hangs, body_threw, budget_error, closes, coded_error, deadline_error,
  exceeds_header_budget, fulfilled, hangs, joined, operation_error, read_encoded_body, rejected,
  remaining_time_ms, requests, returned, status_ok, success, threw,
}
use linklint.Transport.Codes.{
  TransportCauseCode, connect_phase, connect_timeout, connection_address_mismatch,
  decompressed_response_too_large, decompression_phase, http_malformed, http_phase, http_timeout,
  response_headers_too_large, tls_certificate, tls_phase,
}
use linklint.Transport.Policy.{TransportPolicy}
use linklint.Transport.Decoding.{
  Decoded, content_error, decode_response_body, decoded, limit_error, unsupported_error,
}

abbrev pub ends : SafeSession → WorkEnd → Work
ends session ending = record { session = session; calls = []; ending = ending }

abbrev pub throws : SafeSession → Thrown → Work
throws session thrown = ends session (threw thrown)

abbrev pub blocks : SafeSession → AttemptState → TransportCauseCode → Details → Work
blocks session state code details = ends session (returned (blocked state code details))

-- A port is called before the rest of the work.
abbrev pub after_call : PortCall → Work → Work
after_call call work = record work { calls = call ∷ work.calls }

-- The `finally` of a connection: it is closed once the work has ended.
abbrev pub closing : ℕ → WorkEnd → List PortCall
closing id (returned outcome) = closes id ∷ []
closing id (threw thrown) = closes id ∷ []
closing id hangs = []

abbrev pub and_close : ℕ → Work → Work
and_close id work = record work { calls = work.calls ++ closing id work.ending }

module _ (r : Runtime) (policy : TransportPolicy) where
  -- `addressesEqual`
  unfoldable pub addresses_equal : String → String → Bool
  addresses_equal left right =
      let family = r.pin.is_ip left in
      is_family family && (r.pin.is_ip right == family) && r.same_address family left right

  -- `url.href` is the subject that `execute` has set.
  abbrev pub success_response : AttemptState → SafeFetchResponse → ℕ → List ℕ → SuccessResponse
  success_response state response encoded body = record {
    url = state.subject;
    status = response.status;
    headers = response.headers;
    body = body;
    encoded_bytes = encoded;
    decompressed_bytes = length body;
  }

  -- After the body is decoded.
  abbrev pub with_decoded :
      PortAnswers → SafeSession → AttemptState → SafeFetchResponse → ℕ → Decoded → Work
  with_decoded a session state response encoded limit_error =
      throws (record session { decompressed_bytes = policy.max_decompressed_bytes })
        (budget_error decompressed_response_too_large)
  with_decoded a session state response encoded unsupported_error =
      throws session
        (operation_error decompression_phase (record { code = none; unsupported_encoding = true }))
  with_decoded a session state response encoded content_error =
      throws session
        (operation_error decompression_phase (record { code = none; unsupported_encoding = false }))
  with_decoded a session state response encoded (decoded body) =
      let charged = record session {
        decompressed_bytes = session.decompressed_bytes + length body;
      } in
      if remaining_time_ms policy session a.decoded_at == 0
      then throws charged deadline_error
      else ends charged (returned (success state (success_response state response encoded body)))

  abbrev pub with_body :
      PortAnswers → SafeSession → AttemptState → SafeFetchResponse → BodyEnd → Work
  with_body a session state response body_hangs = ends session hangs
  with_body a session state response (body_threw thrown) = throws session thrown
  with_body a session state response (joined encoded) =
      if a.aborted_body
      then throws session (coded_error http_phase http_timeout)
      else with_decoded a session state response (length encoded) (
          decode_response_body r.zlib r.lower encoded response.headers
            (policy.max_decompressed_bytes - session.decompressed_bytes))

  unfoldable pub with_response :
      PortAnswers → SafeSession → AttemptState → Answer SafeFetchResponse → Work
  unfolding read_encoded_body exceeds_header_budget decode_response_body
  with_response a session state (rejected f) = throws session (operation_error http_phase f)
  with_response a session state (fulfilled response) =
      let read = read_encoded_body policy session.encoded_bytes 0 [] response.body in
      if a.aborted_http
      then throws session (coded_error http_phase http_timeout)
      else if not (status_ok response.status)
      then throws session (coded_error http_phase http_malformed)
      else if exceeds_header_budget response.headers policy
      then throws session (budget_error response_headers_too_large)
      else with_body a (record session { encoded_bytes = read.0 }) state response read.1

  -- The peer is the one that was asked for.
  unfoldable pub peer_matches : ConnectRequest → Connection → Bool
  unfolding addresses_equal
  peer_matches request connection =
      text_eq connection.protocol request.protocol
      && connection.remote_port == request.port
      && addresses_equal request.address connection.remote_address

  abbrev pub tls_names : Text → Option Tls → Bool
  tls_names hostname none = false
  tls_names hostname (some tls) = tls.authorized && text_eq tls.server_name hostname

  unfoldable pub tls_matches : ConnectRequest → Connection → Bool
  tls_matches request connection =
      not (text_eq request.protocol (codes "https:")) || tls_names request.hostname connection.tls

  unfoldable pub with_connection :
      PortAnswers
      → SafeSession
      → AttemptState
      → ConnectRequest
      → (Connection → HttpRequest)
      → Answer Connection
      → Work
  unfolding with_response peer_matches tls_matches
  with_connection a session state request http (rejected f) =
      throws session (operation_error connect_phase f)
  with_connection a session state request http (fulfilled connection) = and_close connection.id (
      if a.aborted_connect
      then throws session (coded_error connect_phase connect_timeout)
      else if not (peer_matches request connection)
      then throws session (coded_error connect_phase connection_address_mismatch)
      else if not (tls_matches request connection)
      then throws session (coded_error tls_phase tls_certificate)
      else after_call (requests (http connection)) (
          with_response a session (record state { tls = connection.tls })
            (a.request (http connection))))
