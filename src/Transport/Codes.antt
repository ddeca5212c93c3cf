-- ===== src/Transport/Codes.antt =====
-- packages/online/src/transport/outcome-registry.ts and the end of safe-transport.ts: the causes of
-- an outcome, and the one that an error of a port stands for.
use linklint.Common.{Bool, Option, false, if◌then◌else◌, none, some, true}

pub data TransportCauseCode : Type 0 where
  authorization_required caller_aborted connect_error connect_refused : TransportCauseCode
  connect_timeout connection_address_mismatch decompressed_response_too_large : TransportCauseCode
  decompression_error dns_error dns_malformed dns_not_found dns_timeout : TransportCauseCode
  hop_limit http_error http_malformed http_reset http_timeout invalid_url : TransportCauseCode
  prohibited_address referer_not_same_origin response_headers_too_large : TransportCauseCode
  response_too_large response_too_slow timeout tls_certificate tls_handshake : TransportCauseCode
  unsupported_content_encoding unsupported_method unsupported_scheme : TransportCauseCode
  url_credentials : TransportCauseCode

pub data OperationPhase : Type 0 where
  dns_phase connect_phase tls_phase http_phase decompression_phase : OperationPhase

-- A thrown value: its `code`, where that is one of the registry, and whether it is an
-- `UnsupportedContentEncodingError`.
pub record Failure : Type 0 where
  pub code : Option TransportCauseCode
  pub unsupported_encoding : Bool

abbrev pub coded : TransportCauseCode → Failure
coded code = record { code = some code; unsupported_encoding = false }

-- `STABLE_OPERATION_CODES`
abbrev pub is_stable : TransportCauseCode → Bool
is_stable dns_not_found = true
is_stable dns_timeout = true
is_stable dns_malformed = true
is_stable connect_refused = true
is_stable connect_timeout = true
is_stable connection_address_mismatch = true
is_stable tls_handshake = true
is_stable tls_certificate = true
is_stable http_malformed = true
is_stable http_reset = true
is_stable http_timeout = true
is_stable response_headers_too_large = true
is_stable decompression_error = true
is_stable _ = false

abbrev pub stable_only : Option TransportCauseCode → Option TransportCauseCode
stable_only none = none
stable_only (some code) = if is_stable code then some code else none

abbrev pub error_code : Failure → Option TransportCauseCode
error_code failure = stable_only failure.code

abbrev pub phase_cause : OperationPhase → Bool → TransportCauseCode
phase_cause dns_phase unsupported = dns_error
phase_cause connect_phase unsupported = connect_error
phase_cause tls_phase unsupported = tls_handshake
phase_cause http_phase unsupported = http_error
phase_cause decompression_phase unsupported =
    if unsupported then unsupported_content_encoding else decompression_error

abbrev code_or : Option TransportCauseCode → TransportCauseCode → TransportCauseCode
code_or none code = code
code_or (some stable) code = stable

unfoldable pub operation_cause : OperationPhase → Failure → TransportCauseCode
operation_cause phase failure =
    code_or (error_code failure) (phase_cause phase failure.unsupported_encoding)
