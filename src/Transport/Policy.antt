-- ===== src/Transport/Policy.antt =====
-- packages/online/src/transport/policy.ts: the limits of a session.
use linklint.Common.{Number, Option, if◌then◌else◌, leb, ltb, none, positive, some, ℕ, ◌||◌}

pub record TransportPolicy : Type 0 where
  pub max_hops : ℕ
  pub max_response_bytes : ℕ
  pub max_decompressed_bytes : ℕ
  pub max_total_time_ms : ℕ
  pub min_throughput_bytes : ℕ
  pub min_throughput_window_ms : ℕ
  pub max_response_header_bytes : ℕ
  pub max_response_header_fields : ℕ

-- What the caller gives, each field or none.
pub record PartialPolicy : Type 0 where
  pub max_hops : Option Number
  pub max_response_bytes : Option Number
  pub max_decompressed_bytes : Option Number
  pub max_total_time_ms : Option Number
  pub min_throughput_bytes : Option Number
  pub min_throughput_window_ms : Option Number
  pub max_response_header_bytes : Option Number
  pub max_response_header_fields : Option Number

abbrev pub default_transport_policy : TransportPolicy
default_transport_policy = record {
  max_hops = 10;
  max_response_bytes = 1048576;
  max_decompressed_bytes = 4194304;
  max_total_time_ms = 10000;
  min_throughput_bytes = 512;
  min_throughput_window_ms = 2000;
  max_response_header_bytes = 16384;
  max_response_header_fields = 128;
}

abbrev safe_only : Option ℕ → Option ℕ
safe_only none = none
safe_only (some n) = if leb n 9007199254740991 then some n else none

-- `requirePositiveInteger` of the field, or of its default; none for the RangeError.
unfoldable pub require_positive_integer : Option Number → ℕ → Option ℕ
require_positive_integer none default = some default
require_positive_integer (some value) default = safe_only (positive value)

infixl 5 ◌>>=◌
abbrev ◌>>=◌ : {A B : Type 0} → Option A → (A → Option B) → Option B
none >>= f = none
some a >>= f = f a

unfoldable pub resolve_transport_policy : PartialPolicy → Option TransportPolicy
unfolding require_positive_integer
resolve_transport_policy p = do
  hops ← require_positive_integer p.max_hops default_transport_policy.max_hops
  bytes ← require_positive_integer p.max_response_bytes default_transport_policy.max_response_bytes
  decoded ←
      require_positive_integer p.max_decompressed_bytes
        default_transport_policy.max_decompressed_bytes
  time ← require_positive_integer p.max_total_time_ms default_transport_policy.max_total_time_ms
  floor ←
      require_positive_integer p.min_throughput_bytes default_transport_policy.min_throughput_bytes
  window ←
      require_positive_integer p.min_throughput_window_ms
        default_transport_policy.min_throughput_window_ms
  header_bytes ←
      require_positive_integer p.max_response_header_bytes
        default_transport_policy.max_response_header_bytes
  header_fields ←
      require_positive_integer p.max_response_header_fields
        default_transport_policy.max_response_header_fields
  if ltb 2147483647 time || ltb 2147483647 window
      then none
      else some (record {
        max_hops = hops;
        max_response_bytes = bytes;
        max_decompressed_bytes = decoded;
        max_total_time_ms = time;
        min_throughput_bytes = floor;
        min_throughput_window_ms = window;
        max_response_header_bytes = header_bytes;
        max_response_header_fields = header_fields;
      })
