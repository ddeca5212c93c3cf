-- ===== src/Tests/Transport.antt =====
-- Runs of packages/online/src/transport.
use linklint.Transport.RequestHeaders.Sent.{IsSent, destination_headers-IsSent}
use linklint.Common.{
  All, List, Option, Text, [], codes, drop, false, finite, if◌then◌else◌, lower_ascii, none, pos,
  refl, some, split, str_eq, text_eq, true, ◌∷◌, ◌≡◌, ◌≤◌,
}
use linklint.Pin.{
  classify_transport_address, pin_addresses, pin_destination, resolve_host_addresses, select,
}
use linklint.Transport.{
  AttemptState, Connection, PortAnswers, Runtime, SafeFetchRequest, SafeFetchResponse, SafeSession,
  SuccessResponse, Tls, body_done, chunk, fulfilled, incomplete, limit_details, no_details,
}
use linklint.Transport.Codes.{connection_address_mismatch, response_too_large}
use linklint.Transport.Policy.{PartialPolicy, default_transport_policy, resolve_transport_policy}
use linklint.Transport.RequestHeaders.{UrlObject, destination_headers}
use linklint.Transport.Decoding.{inflated}
use linklint.Transport.Fetch.{Fetched, create_session, fetch, fetch_all}
use linklint.Transport.Fetch.Reading.{IsWithin}
use linklint.Transport.Fetch.Budgets.{
  decompressed_sum, encoded_sum, fetch_all-IsWithin, fetches_made,
}

abbrev no_policy : PartialPolicy
no_policy = record {
  max_hops = none;
  max_response_bytes = none;
  max_decompressed_bytes = none;
  max_total_time_ms = none;
  min_throughput_bytes = none;
  min_throughput_window_ms = none;
  max_response_header_bytes = none;
  max_response_header_fields = none;
}

policies :
    (resolve_transport_policy no_policy ≡ some default_transport_policy)
    × (resolve_transport_policy (record no_policy { max_hops = some (finite (pos 0)) }) ≡ none)
    × (resolve_transport_policy
          (record no_policy { max_total_time_ms = some (finite (pos 2147483648)) })
        ≡ none)
unfolding resolve_transport_policy
policies = (refl, refl, refl)

-- One URL, one address, one decoder that drops the first unit.
abbrev destination : UrlObject
destination = record {
  protocol = codes "https:";
  username = [];
  password = [];
  origin = codes "https://a.example";
  hostname = codes "a.example";
  host_text = codes "a.example";
  port = none;
  href = codes "https://a.example/x";
}

abbrev runtime : Runtime
runtime = record {
  pin = record {
    is_ip = λ s. if str_eq s "8.8.8.8" then 4 else 0;
    classify_host = λ s. none;
    rules = [];
  };
  parse_url = λ t. if text_eq t (codes "https://a.example/x") then some destination else none;
  lower = λ t. t;
  string_of = λ t. "a.example";
  same_address = λ family s t. str_eq s t;
  zlib = λ coding body limit. inflated (drop 1 body);
}

abbrev tls : Tls
tls = record { authorized = true; server_name = codes "a.example" }

abbrev connection : Connection
connection = record {
  id = 7;
  protocol = codes "https:";
  remote_address = "8.8.8.8";
  remote_port = 443;
  tls = some tls;
}

abbrev response : SafeFetchResponse
response = record {
  status = finite (pos 200);
  headers = (codes "content-encoding", codes "gzip" ∷ []) ∷ [];
  body = chunk (1 ∷ 2 ∷ []) ∷ chunk (3 ∷ []) ∷ body_done ∷ [];
}

abbrev answers : Connection → SafeFetchResponse → PortAnswers
answers c r = record {
  resolve =
      λ s. some (record { address = "8.8.8.8"; family = 4; ttl_seconds = finite (pos 60) } ∷ []);
  resolve_failure = record { code = none; unsupported_encoding = false };
  connect = λ request. fulfilled c;
  request = λ request. fulfilled r;
  started_at = 100;
  decoded_at = 200;
  aborted_before = false;
  aborted_dns = false;
  aborted_connect = false;
  aborted_http = false;
  aborted_body = false;
  deadline_first = false;
  caller_aborted = false;
}

abbrev request : SafeFetchRequest
request = record {
  url = codes "https://a.example/x";
  destination_fetch = true;
  authorized_url = codes "https://a.example/x";
  method = none;
  headers = [];
  same_origin_referer = none;
}

abbrev at_end : AttemptState
at_end = record {
  subject = codes "https://a.example/x";
  hop = 1;
  protocol = some (codes "https:");
  hostname = some (codes "a.example");
  port = some 443;
  resolved_addresses = some ("8.8.8.8" ∷ []);
  selected_address = some "8.8.8.8";
  tls = some tls;
}

abbrev read : SuccessResponse
read = record {
  url = codes "https://a.example/x";
  status = response.status;
  headers = response.headers;
  body = 2 ∷ 3 ∷ [];
  encoded_bytes = 3;
  decompressed_bytes = 2;
}

abbrev fresh : SafeSession
fresh = create_session 100

abbrev good : PortAnswers
good = answers connection response

abbrev rebound : PortAnswers
rebound = answers (record connection { remote_address = "10.0.0.1" }) response

fetch_failures :
    ((fetch runtime default_transport_policy rebound fresh request).outcome
      ≡ incomplete connection_address_mismatch no_details)
    × ((fetch runtime
          (record default_transport_policy { max_response_bytes = 2 })
          good
          fresh
          request).outcome
        ≡ incomplete response_too_large (limit_details (("maxResponseBytes", 2) ∷ [])))
    × ((fetch runtime default_transport_policy good fresh
          (record request { authorized_url = codes "https://b.example/" })).calls
        ≡ [])
unfolding fetch pin_destination pin_addresses select classify_transport_address
    resolve_host_addresses split
fetch_failures = (refl, refl, refl)

abbrev both : SafeSession × List Fetched
both =
    fetch_all runtime default_transport_policy (create_session 100)
      ((good, request) ∷ (rebound, request) ∷ [])

fetch_all-IsWithin_example :
    IsWithin default_transport_policy both.0
    × (fetches_made both.1 ≤ 10)
    × (encoded_sum both.1 ≤ 1048576)
    × (decompressed_sum both.1 ≤ 4194304)
fetch_all-IsWithin_example =
    fetch_all-IsWithin runtime default_transport_policy 100
      ((good, request) ∷ (rebound, request) ∷ [])

abbrev offered : List (Text × Option Text)
offered =
    (codes "accept", some (codes "*/*"))
    ∷ (codes "cookie", some (codes "a=b"))
    ∷ (codes "user-agent", some (10 ∷ []))
    ∷ []

sent_headers :
    destination_headers lower_ascii (codes "h") offered (some (codes "r"))
    ≡ (codes "host", codes "h")
      ∷ (codes "accept-encoding", codes "gzip, deflate, br")
      ∷ (codes "accept", codes "*/*")
      ∷ (codes "referer", codes "r")
      ∷ []
unfolding destination_headers
sent_headers = refl

destination_headers-IsSent_example :
    All
      (IsSent lower_ascii (codes "h") offered (some (codes "r")))
      (destination_headers lower_ascii (codes "h") offered (some (codes "r")))
destination_headers-IsSent_example =
    destination_headers-IsSent lower_ascii (codes "h") offered (some (codes "r"))
