-- ===== src/Transport/Fetch/Spending.antt =====
-- What the exchange on a connection of safe-transport.ts spends, and what it reports.
use linklint.Common.{List, [], arith, if_cases, length, not, refl, ℕ, ◌+◌, ◌-◌, ◌==◌, ◌≡◌, ◌≤◌}
use linklint.Transport.{
  Answer, AttemptState, BodyEnd, PortAnswers, PortCall, Runtime, SafeFetchOutcome,
  SafeFetchResponse, SafeSession, Work, WorkEnd, body_hangs, body_threw, exceeds_header_budget,
  fulfilled, hangs, joined, read_encoded_body, rejected, remaining_time_ms, returned, status_ok,
  success, threw,
}
use linklint.Transport.Policy.{TransportPolicy}
use linklint.Transport.Decoding.{Decoded, content_error, decoded, limit_error, unsupported_error}
use linklint.Transport.Exchange.{ends, with_body, with_decoded, with_response}
use linklint.Transport.Fetch.Reading.{
  IsBounded, IsWithin, body_length, decode_response_body-IsBounded, read_encoded_body-charges,
  read_encoded_body-le,
}

-- The bytes that an outcome reports.
abbrev pub encoded_in : SafeFetchOutcome → ℕ
encoded_in (success state response) = response.encoded_bytes
encoded_in _ = 0

abbrev pub decompressed_in : SafeFetchOutcome → ℕ
decompressed_in (success state response) = response.decompressed_bytes
decompressed_in _ = 0

abbrev pub encoded_end : WorkEnd → ℕ
encoded_end (returned outcome) = encoded_in outcome
encoded_end (threw thrown) = 0
encoded_end hangs = 0

abbrev pub decompressed_end : WorkEnd → ℕ
decompressed_end (returned outcome) = decompressed_in outcome
decompressed_end (threw thrown) = 0
decompressed_end hangs = 0

-- The work is charged to the session for what it ends with.
pub record Spends (policy : TransportPolicy) (before : SafeSession) (w : Work) : Type 0 where
  pub within : IsWithin policy w.session
  pub hops : w.session.hops ≡ before.hops
  pub encoded : before.encoded_bytes + encoded_end w.ending ≤ w.session.encoded_bytes
  pub decompressed :
      before.decompressed_bytes + decompressed_end w.ending ≤ w.session.decompressed_bytes

module _ (r : Runtime) (policy : TransportPolicy) (a : PortAnswers) where
  -- Work that ends without a success, on the session as it was.
  pub unspent :
      (session : SafeSession) (w : Work)
      → IsWithin policy session
      → w.session ≡ session
      → encoded_end w.ending ≡ 0
      → decompressed_end w.ending ≡ 0
      → Spends policy session w
  unspent session w h same e d = record {
    within = rw same h;
    hops = rw same refl;
    encoded = rw (same, e) (omega arith);
    decompressed = rw (same, d) (omega arith);
  }

  -- What was read of the body is charged before it is decoded.
  record IsRead (before session : SafeSession) (n : ℕ) : Type 0 where
    within : IsWithin policy session
    hops : session.hops ≡ before.hops
    encoded : before.encoded_bytes + n ≤ session.encoded_bytes
    decompressed : session.decompressed_bytes ≡ before.decompressed_bytes

  with_decoded-Spends :
      (before session : SafeSession) (state : AttemptState) (response : SafeFetchResponse)
      (encoded : ℕ) (d : Decoded)
      → IsRead before session encoded
      → IsBounded (policy.max_decompressed_bytes - session.decompressed_bytes) d
      → Spends policy before (with_decoded r policy a session state response encoded d)
  with_decoded-Spends before session state response encoded (decoded body) h k =
      let within : IsWithin policy
          (record session { decompressed_bytes = session.decompressed_bytes + length body }) =
        record {
          hops = h.within.hops;
          encoded = h.within.encoded;
          decompressed = omega (arith, h.within.decompressed, k);
        } in
      if_cases (Spends policy before) (remaining_time_ms policy session a.decoded_at == 0)
        (λ late. record {
          within = within;
          hops = h.hops;
          encoded = omega (arith, h.encoded);
          decompressed = omega (arith, h.decompressed);
        })
        (λ on. record {
          within = within;
          hops = h.hops;
          encoded = h.encoded;
          decompressed = omega (arith, h.decompressed);
        })
  with_decoded-Spends before session state response encoded limit_error h k = record {
    within = record {
      hops = h.within.hops;
      encoded = h.within.encoded;
      decompressed = omega arith;
    };
    hops = h.hops;
    encoded = omega (arith, h.encoded);
    decompressed = omega (arith, h.decompressed, h.within.decompressed);
  }
  with_decoded-Spends before session state response encoded unsupported_error h k = record {
    within = h.within;
    hops = h.hops;
    encoded = omega (arith, h.encoded);
    decompressed = omega (arith, h.decompressed);
  }
  with_decoded-Spends before session state response encoded content_error h k = record {
    within = h.within;
    hops = h.hops;
    encoded = omega (arith, h.encoded);
    decompressed = omega (arith, h.decompressed);
  }

  -- The session is charged for what is read, and the work ends without a success.
  failed-Spends :
      (before session : SafeSession) (n : ℕ) (ending : WorkEnd)
      → IsRead before session n
      → encoded_end ending ≡ 0
      → decompressed_end ending ≡ 0
      → Spends policy before (ends session ending)
  failed-Spends before session n ending h e d = record {
    within = h.within;
    hops = h.hops;
    encoded = rw e (omega (arith, h.encoded));
    decompressed = rw d (omega (arith, h.decompressed));
  }

  with_body-Spends :
      (before session : SafeSession) (state : AttemptState) (response : SafeFetchResponse)
      (e : BodyEnd)
      → IsRead before session (body_length e)
      → Spends policy before (with_body r policy a session state response e)
  with_body-Spends before session state response body_hangs h =
      failed-Spends before session 0 hangs h refl refl
  with_body-Spends before session state response (body_threw thrown) h =
      failed-Spends before session 0 (threw thrown) h refl refl
  with_body-Spends before session state response (joined encoded) h =
      if_cases (Spends policy before) a.aborted_body
        (λ late. failed-Spends before session (length encoded) _ h refl refl)
        (λ on. with_decoded-Spends before session state response (length encoded) _ h (
          decode_response_body-IsBounded r.zlib r.lower encoded response.headers
            (policy.max_decompressed_bytes - session.decompressed_bytes)))

  pub with_response-Spends :
      (session : SafeSession) (state : AttemptState) (response : Answer SafeFetchResponse)
      → IsWithin policy session
      → Spends policy session (with_response r policy a session state response)
  unfolding with_response
  with_response-Spends session state (rejected f) h = unspent session _ h refl refl refl
  with_response-Spends session state (fulfilled response) h =
      let read = read_encoded_body policy session.encoded_bytes 0 [] response.body in
      let charged : IsRead session (record session { encoded_bytes = read.0 })
          (body_length read.1) =
        record {
          within = record {
            hops = h.hops;
            encoded =
                read_encoded_body-le policy session.encoded_bytes 0 [] response.body h.encoded;
            decompressed = h.decompressed;
          };
          hops = refl;
          encoded =
              read_encoded_body-charges policy session.encoded_bytes session.encoded_bytes 0 []
                response.body h.encoded (omega arith);
          decompressed = refl;
        } in
      if_cases (Spends policy session) a.aborted_http (λ late. unspent session _ h refl refl refl)
        (λ on.
          if_cases (Spends policy session) (not (status_ok response.status))
            (λ bad. unspent session _ h refl refl refl)
            (λ good.
              if_cases (Spends policy session) (exceeds_header_budget response.headers policy)
                (λ large. unspent session _ h refl refl refl)
                (λ small.
                  with_body-Spends session (record session { encoded_bytes = read.0 }) state
                    response read.1 charged)))

  -- A call, and the closing of a connection, spend nothing.
  pub calls-Spends :
      (session : SafeSession) (w : Work) (calls : List PortCall)
      → Spends policy session w
      → Spends policy session (record w { calls = calls })
  calls-Spends session w calls h = record {
    within = h.within;
    hops = h.hops;
    encoded = h.encoded;
    decompressed = h.decompressed;
  }
