-- ===== src/Transport.antt =====
-- packages/online/src/transport/safe-transport.ts and port.ts: one session of bounded fetches. What
-- the ports answer during a fetch, which reads of the body a throughput window closes, where the
-- signal is found aborted, and whether the deadline wins the race are arguments. The session after a
-- fetch is the one when its work has settled. The evidence of an incomplete outcome and the time of
-- an outcome are not modelled.
pub mod Codes
pub mod Policy
pub mod RequestHeaders
pub mod Decoding
pub mod Exchange
pub mod Fetch
use linklint.Common.{
  Bool, List, Number, Option, String, Text, [], codes, drop, drop_last, ends_in, false, finite,
  if◌then◌else◌, is_none, leb, length, ltb, none, pos, some, starts_with, suc, text_eq, ℕ, ◌&&◌,
  ◌++◌, ◌+◌, ◌-◌, ◌∷◌,
}
use linklint.Pin.{Category, DnsAddress, Platform}
use linklint.Transport.Codes.{
  Failure, OperationPhase, TransportCauseCode, coded, decompressed_response_too_large,
  http_malformed, http_phase, response_headers_too_large, response_too_large, response_too_slow,
}
use linklint.Transport.Policy.{TransportPolicy}
use linklint.Transport.RequestHeaders.{UrlObject}
use linklint.Transport.Decoding.{Coding, Headers, Inflated}

pub record SafeSession : Type 0 where
  pub started_at_ms : ℕ
  pub hops : ℕ
  pub encoded_bytes : ℕ
  pub decompressed_bytes : ℕ

pub record SafeFetchRequest : Type 0 where
  pub url : Text
  pub destination_fetch : Bool
  pub authorized_url : Text
  pub method : Option Text
  pub headers : List (Text × Option Text)
  pub same_origin_referer : Option Text

pub record Tls : Type 0 where
  pub authorized : Bool
  pub server_name : Text

-- The fields that are set once the URL is accepted, the address is chosen and the peer is checked.
pub record AttemptState : Type 0 where
  pub subject : Text
  pub hop : ℕ
  pub protocol : Option Text
  pub hostname : Option Text
  pub port : Option ℕ
  pub resolved_addresses : Option (List String)
  pub selected_address : Option String
  pub tls : Option Tls

pub record ConnectRequest : Type 0 where
  pub protocol : Text
  pub hostname : Text
  pub address : String
  pub port : ℕ
  pub server_name : Option Text

pub record Connection : Type 0 where
  pub id : ℕ
  pub protocol : Text
  pub remote_address : String
  pub remote_port : ℕ
  pub tls : Option Tls

pub record HttpRequest : Type 0 where
  pub connection_id : ℕ
  pub url : Text
  pub method : Text
  pub headers : List (Text × Text)

-- What one round of the body's loop finds: the window closed, or the next step of the iterator.
pub data BodyRead : Type 0 where
  window_closed : BodyRead
  chunk : List ℕ → BodyRead
  not_bytes : BodyRead
  read_failed : Failure → BodyRead
  body_done : BodyRead

pub record SafeFetchResponse : Type 0 where
  pub status : Number
  pub headers : Headers
  pub body : List BodyRead

pub data Answer {ℓ} (A : Type ℓ) : Type ℓ where
  fulfilled : A → Answer A
  rejected : Failure → Answer A

pub data Details : Type 0 where
  no_details : Details
  scheme_details : Text → Details
  address_details : String → Category → Details
  limit_details : List (String × ℕ) → Details

-- The `response` of a success.
pub record SuccessResponse : Type 0 where
  pub url : Text
  pub status : Number
  pub headers : Headers
  pub body : List ℕ
  pub encoded_bytes : ℕ
  pub decompressed_bytes : ℕ

pub data SafeFetchOutcome : Type 0 where
  success : AttemptState → SuccessResponse → SafeFetchOutcome
  blocked : AttemptState → TransportCauseCode → Details → SafeFetchOutcome
  incomplete : TransportCauseCode → Details → SafeFetchOutcome

-- How the work ends: with an outcome, with a thrown error, or never.
pub data Thrown : Type 0 where
  operation_error : OperationPhase → Failure → Thrown
  budget_error : TransportCauseCode → Thrown
  deadline_error : Thrown

pub data WorkEnd : Type 0 where
  returned : SafeFetchOutcome → WorkEnd
  threw : Thrown → WorkEnd
  hangs : WorkEnd

-- The calls of the ports, in order.
pub data PortCall : Type 0 where
  resolves : Text → PortCall
  connects : ConnectRequest → PortCall
  requests : HttpRequest → PortCall
  closes : ℕ → PortCall

pub record Work : Type 0 where
  pub session : SafeSession
  pub calls : List PortCall
  pub ending : WorkEnd

-- The platform: the URL parser, lower case, the text of an address, `BlockList.check` of one
-- address against another of the same family, and zlib.
pub record Runtime : Type 0 where
  pub pin : Platform
  pub parse_url : Text → Option UrlObject
  pub lower : Text → Text
  pub string_of : Text → String
  pub same_address : ℕ → String → String → Bool
  pub zlib : Coding → List ℕ → ℕ → Inflated

-- What happens during one fetch.
pub record PortAnswers : Type 0 where
  pub resolve : String → Option (List DnsAddress)
  pub resolve_failure : Failure
  pub connect : ConnectRequest → Answer Connection
  pub request : HttpRequest → Answer SafeFetchResponse
  pub started_at : ℕ
  pub decoded_at : ℕ
  pub aborted_before : Bool
  pub aborted_dns : Bool
  pub aborted_connect : Bool
  pub aborted_http : Bool
  pub aborted_body : Bool
  pub deadline_first : Bool
  pub caller_aborted : Bool

unfoldable pub effective_port : UrlObject → ℕ
effective_port url = elim url.port [
  | some port ↦ port
  | none ↦ if text_eq url.protocol (codes "https:") then 443 else 80
]

unfoldable pub unbracket : Text → Text
unbracket hostname =
    if starts_with (codes "[") hostname && ends_in b']' hostname
    then drop_last (drop 1 hostname)
    else hostname

-- The loop over the values of a header and over the headers; none once a limit is passed.
abbrev pub charge_values : TransportPolicy → Text → List Text → (fields bytes : ℕ) → Option (ℕ × ℕ)
charge_values policy name [] fields bytes = some (fields, bytes)
charge_values policy name (value ∷ values) fields bytes =
    let charged = bytes + (length name + length value + 4) in
    let rest = charge_values policy name values (suc fields) charged in
    if ltb policy.max_response_header_fields (suc fields)
    then none
    else if ltb policy.max_response_header_bytes charged
    then none
    else rest

abbrev pub charge_headers : TransportPolicy → Headers → Option (ℕ × ℕ) → Option (ℕ × ℕ)
charge_headers policy [] charged = charged
charge_headers policy ((name, values) ∷ rest) none = none
charge_headers policy ((name, values) ∷ rest) (some (fields, bytes)) =
    charge_headers policy rest (charge_values policy name values fields bytes)

unfoldable pub exceeds_header_budget : Headers → TransportPolicy → Bool
exceeds_header_budget headers policy = is_none (charge_headers policy headers (some (0, 0)))

unfoldable pub budget_details : TransportCauseCode → TransportPolicy → Details
budget_details response_too_large policy =
    limit_details (("maxResponseBytes", policy.max_response_bytes) ∷ [])
budget_details response_too_slow policy = limit_details (
    ("minThroughputBytes", policy.min_throughput_bytes)
    ∷ ("minThroughputWindowMs", policy.min_throughput_window_ms)
    ∷ [])
budget_details decompressed_response_too_large policy =
    limit_details (("maxDecompressedBytes", policy.max_decompressed_bytes) ∷ [])
budget_details response_headers_too_large policy = limit_details (
    ("maxResponseHeaderBytes", policy.max_response_header_bytes)
    ∷ ("maxResponseHeaderFields", policy.max_response_header_fields)
    ∷ [])
budget_details _ policy = no_details

-- The body's loop: the session's encoded bytes, and the body, an error, or no end.
pub data BodyEnd : Type 0 where
  joined : List ℕ → BodyEnd
  body_threw : Thrown → BodyEnd
  body_hangs : BodyEnd

abbrev pub coded_error : OperationPhase → TransportCauseCode → Thrown
coded_error phase code = operation_error phase (coded code)

unfoldable pub read_encoded_body :
    TransportPolicy → (encoded_bytes window_bytes : ℕ) → List ℕ → List BodyRead → ℕ × BodyEnd
read_encoded_body policy encoded window body [] = (encoded, body_hangs)
read_encoded_body policy encoded window body (window_closed ∷ reads) =
    let rest = read_encoded_body policy encoded 0 body reads in
    if ltb window policy.min_throughput_bytes
    then (encoded, body_threw (budget_error response_too_slow))
    else rest
read_encoded_body policy encoded window body (body_done ∷ reads) = (encoded, joined body)
read_encoded_body policy encoded window body (not_bytes ∷ reads) =
    (encoded, body_threw (coded_error http_phase http_malformed))
read_encoded_body policy encoded window body (read_failed f ∷ reads) =
    (encoded, body_threw (operation_error http_phase f))
read_encoded_body policy encoded window body (chunk bytes ∷ reads) =
    let charged = encoded + length bytes in
    let rest = read_encoded_body policy charged (window + length bytes) (body ++ bytes) reads in
    if ltb policy.max_response_bytes charged
    then (policy.max_response_bytes, body_threw (budget_error response_too_large))
    else rest

abbrev pub remaining_time_ms : TransportPolicy → SafeSession → ℕ → ℕ
remaining_time_ms policy session now = policy.max_total_time_ms - (now - session.started_at_ms)

abbrev pub status_ok : Number → Bool
status_ok (finite (pos n)) = leb 100 n && leb n 599
status_ok _ = false
