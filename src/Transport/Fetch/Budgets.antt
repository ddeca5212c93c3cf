-- ===== src/Transport/Fetch/Budgets.antt =====
-- The budgets of a session of safe-transport.ts hold over any number of fetches.
use linklint.Common.{
  List, Option, Text, [], arith, if_cases, is_empty, ltb, none, not, refl, some, suc, text_eq, ℕ,
  ◌+◌, ◌==◌, ◌||◌, ◌∷◌, ◌≡◌, ◌≤◌,
}
use linklint.Transport.{
  Answer, AttemptState, ConnectRequest, Connection, HttpRequest, PortAnswers, PortCall, Runtime,
  SafeFetchOutcome, SafeFetchRequest, SafeSession, Thrown, Work, WorkEnd, budget_error,
  deadline_error, fulfilled, hangs, operation_error, rejected, remaining_time_ms, returned, threw,
}
use linklint.Transport.Policy.{TransportPolicy}
use linklint.Transport.Exchange.{and_close, peer_matches, tls_matches, with_connection}
use linklint.Transport.Fetch.{
  Fetched, caught, create_session, dispatched, execute, fetch, fetch_all, first_state, http_request,
  is_web, method_ok, not_fetched, of_work, outcome_of, raced, with_candidate, with_checked_referer,
  with_pin, with_result, with_url,
}
use linklint.Pin.{PinResult, pinned, prohibited}
use linklint.Transport.RequestHeaders.{UrlObject, same_origin_referer_value}
use linklint.Transport.Fetch.Reading.{IsWithin}
use linklint.Transport.Fetch.Spending.{
  Spends, calls-Spends, decompressed_end, decompressed_in, encoded_end, encoded_in, unspent,
  with_response-Spends,
}

-- 1 for a fetch that calls a port.
abbrev called : List PortCall → ℕ
called [] = 0
called (c ∷ cs) = 1

abbrev pub fetches_made : List Fetched → ℕ
fetches_made [] = 0
fetches_made (f ∷ fs) = called f.calls + fetches_made fs

abbrev pub encoded_sum : List Fetched → ℕ
encoded_sum [] = 0
encoded_sum (f ∷ fs) = encoded_in f.outcome + encoded_sum fs

abbrev pub decompressed_sum : List Fetched → ℕ
decompressed_sum [] = 0
decompressed_sum (f ∷ fs) = decompressed_in f.outcome + decompressed_sum fs

module _ (r : Runtime) (policy : TransportPolicy) (a : PortAnswers) where
  with_connection-Spends :
      (session : SafeSession) (state : AttemptState) (request : ConnectRequest)
      (http : Connection → HttpRequest) (m : Answer Connection)
      → IsWithin policy session
      → Spends policy session (with_connection r policy a session state request http m)
  unfolding with_connection
  with_connection-Spends session state request http (rejected f) h =
      unspent r policy a session _ h refl refl refl
  with_connection-Spends session state request http (fulfilled connection) h =
      let P = λ (w : Work). Spends policy session (and_close connection.id w) in
      if_cases P a.aborted_connect (λ late. unspent r policy a session _ h refl refl refl)
        (λ on.
          if_cases P (not (peer_matches r policy request connection))
            (λ bad. unspent r policy a session _ h refl refl refl)
            (λ peer.
              if_cases P (not (tls_matches r policy request connection))
                (λ bad. unspent r policy a session _ h refl refl refl)
                (λ tls. calls-Spends r policy a session _ _ (
                  with_response-Spends r policy a session (record state { tls = connection.tls })
                    (a.request (http connection)) h))))

  with_result-Spends :
      (session : SafeSession) (state : AttemptState) (request : SafeFetchRequest) (url : UrlObject)
      (referer : Option Text) (result : PinResult)
      → IsWithin policy session
      → Spends policy session (with_result r policy a session state request url referer result)
  with_result-Spends session state request url referer (PinResult.dns_not_found s) h =
      unspent r policy a session _ h refl refl refl
  with_result-Spends session state request url referer (PinResult.dns_malformed s) h =
      unspent r policy a session _ h refl refl refl
  with_result-Spends session state request url referer (prohibited s address c) h =
      unspent r policy a session _ h refl refl refl
  with_result-Spends session state request url referer (pinned s selected) h =
      calls-Spends r policy a session _ _
        (with_connection-Spends session _ _ (http_request r policy request url referer) _ h)

  with_pin-Spends :
      (session : SafeSession) (state : AttemptState) (request : SafeFetchRequest) (url : UrlObject)
      (referer : Option Text) (m : Option PinResult)
      → IsWithin policy session
      → Spends policy session (with_pin r policy a session state request url referer m)
  unfolding with_pin
  with_pin-Spends session state request url referer none h =
      unspent r policy a session _ h refl refl refl
  with_pin-Spends session state request url referer (some result) h =
      if_cases (Spends policy session) a.aborted_dns
        (λ late. unspent r policy a session _ h refl refl refl)
        (λ on. with_result-Spends session state request url referer result h)

  dispatched-Spends :
      (session : SafeSession) (state : AttemptState) (request : SafeFetchRequest) (url : UrlObject)
      (referer : Option Text)
      → IsWithin policy session
      → Spends policy session (dispatched r policy a session state request url referer)
  dispatched-Spends session state request url referer h =
      calls-Spends r policy a session _ _ (with_pin-Spends session _ request url referer _ h)

  with_checked-Spends :
      (session : SafeSession) (state : AttemptState) (request : SafeFetchRequest) (url : UrlObject)
      (value : Option Text)
      → IsWithin policy session
      → Spends policy session (with_checked_referer r policy a session state request url value)
  with_checked-Spends session state request url none h =
      unspent r policy a session _ h refl refl refl
  with_checked-Spends session state request url (some referer) h =
      dispatched-Spends session state request url (some referer) h

  with_candidate-Spends :
      (session : SafeSession) (state : AttemptState) (request : SafeFetchRequest) (url : UrlObject)
      (candidate : Option Text)
      → IsWithin policy session
      → Spends policy session (with_candidate r policy a session state request url candidate)
  with_candidate-Spends session state request url none h =
      dispatched-Spends session state request url none h
  with_candidate-Spends session state request url (some candidate) h =
      with_checked-Spends session state request url
        (same_origin_referer_value r.parse_url url candidate) h

  with_url-Spends :
      (session : SafeSession) (state : AttemptState) (request : SafeFetchRequest)
      (m : Option UrlObject)
      → IsWithin policy session
      → Spends policy session (with_url r policy a session state request m)
  with_url-Spends session state request none h = unspent r policy a session _ h refl refl refl
  with_url-Spends session state request (some url) h =
      let P = Spends policy session in
      if_cases P (not (is_web r policy url.protocol))
        (λ other. unspent r policy a session _ h refl refl refl)
        (λ web.
          if_cases P (not (method_ok r policy request.method))
            (λ bad. unspent r policy a session _ h refl refl refl)
            (λ good.
              if_cases P (not (is_empty url.username) || not (is_empty url.password))
                (λ credentials. unspent r policy a session _ h refl refl refl)
                (λ bare.
                  with_candidate-Spends session state request url request.same_origin_referer h)))

  -- What is reported of the work is no more than what it ends with.
  caught-nothing :
      (thrown : Thrown)
      → (encoded_in (caught r policy a thrown) ≡ 0)
        × (decompressed_in (caught r policy a thrown) ≡ 0)
  caught-nothing deadline_error = (refl, refl)
  caught-nothing (budget_error code) =
      if_cases (λ (o : SafeFetchOutcome). (encoded_in o ≡ 0) × (decompressed_in o ≡ 0))
        a.caller_aborted (λ aborted. (refl, refl)) (λ on. (refl, refl))
  caught-nothing (operation_error phase f) =
      if_cases (λ (o : SafeFetchOutcome). (encoded_in o ≡ 0) × (decompressed_in o ≡ 0))
        a.caller_aborted (λ aborted. (refl, refl)) (λ on. (refl, refl))

  AtMost : WorkEnd → SafeFetchOutcome → Type 0
  AtMost ending o =
      (encoded_in o ≤ encoded_end ending) × (decompressed_in o ≤ decompressed_end ending)

  outcome_of-AtMost : (ending : WorkEnd) → AtMost ending (outcome_of r policy a ending)
  unfolding AtMost
  outcome_of-AtMost hangs = (omega arith, omega arith)
  outcome_of-AtMost (returned outcome) = (omega arith, omega arith)
  outcome_of-AtMost (threw thrown) =
      (omega (arith, (caught-nothing thrown).0), omega (arith, (caught-nothing thrown).1))

  raced-AtMost : (w : Work) → AtMost w.ending (raced r policy a w)
  unfolding AtMost
  raced-AtMost w =
      if_cases (AtMost w.ending) a.deadline_first (λ late. (omega arith, omega arith))
        (λ first. outcome_of-AtMost w.ending)

  -- One fetch is charged for the hop, where it calls a port, and for the bytes that it reports.
  record Charges (before : SafeSession) (f : Fetched) : Type 0 where
    within : IsWithin policy f.session
    hops : before.hops + called f.calls ≤ f.session.hops
    encoded : before.encoded_bytes + encoded_in f.outcome ≤ f.session.encoded_bytes
    decompressed :
        before.decompressed_bytes + decompressed_in f.outcome ≤ f.session.decompressed_bytes

  not_fetched-Charges :
      (session : SafeSession) (outcome : SafeFetchOutcome)
      → IsWithin policy session
      → encoded_in outcome ≡ 0
      → decompressed_in outcome ≡ 0
      → Charges session (not_fetched r policy session outcome)
  not_fetched-Charges session outcome h e d = record {
    within = h;
    hops = omega arith;
    encoded = omega (arith, e);
    decompressed = omega (arith, d);
  }

  called-le : (calls : List PortCall) → called calls ≤ 1
  called-le [] = omega arith
  called-le (c ∷ cs) = omega arith

  of_work-Charges :
      (session : SafeSession) (w : Work)
      → Spends policy (record session { hops = suc session.hops }) w
      → Charges session (of_work r policy a w)
  unfolding AtMost
  of_work-Charges session w h =
      let most = raced-AtMost w in
      record {
        within = h.within;
        hops = omega (arith, h.hops, called-le w.calls);
        encoded = omega (arith, h.encoded, most.0);
        decompressed = omega (arith, h.decompressed, most.1);
      }

  fetch-Charges :
      (session : SafeSession) (request : SafeFetchRequest)
      → IsWithin policy session
      → Charges session (fetch r policy a session request)
  unfolding fetch execute
  fetch-Charges session request h =
      let P = Charges session in
      if_cases P (not request.destination_fetch || not (text_eq request.authorized_url request.url))
        (λ not_given. not_fetched-Charges session _ h refl refl)
        (λ given.
          if_cases P (ltb policy.max_hops (suc session.hops))
            (λ spent. not_fetched-Charges session _ h refl refl)
            (λ left.
              if_cases P a.aborted_before (λ aborted. not_fetched-Charges session _ h refl refl)
                (λ on.
                  if_cases P (remaining_time_ms policy session a.started_at == 0)
                    (λ late. not_fetched-Charges session _ h refl refl)
                    (λ time. of_work-Charges session _ (
                      with_url-Spends (record session { hops = suc session.hops })
                        (first_state r policy session request) request (r.parse_url request.url)
                        (record {
                          hops = ground arith;
                          encoded = h.encoded;
                          decompressed = h.decompressed;
                        }))))))

-- Many fetches are charged for together.
record ChargesAll (policy : TransportPolicy) (before : SafeSession) (f : SafeSession × List Fetched)
    : Type 0 where
  within : IsWithin policy f.0
  hops : before.hops + fetches_made f.1 ≤ f.0.hops
  encoded : before.encoded_bytes + encoded_sum f.1 ≤ f.0.encoded_bytes
  decompressed : before.decompressed_bytes + decompressed_sum f.1 ≤ f.0.decompressed_bytes

fetch_all-ChargesAll :
    (r : Runtime) (policy : TransportPolicy) (session : SafeSession)
    (fetches : List (PortAnswers × SafeFetchRequest))
    → IsWithin policy session
    → ChargesAll policy session (fetch_all r policy session fetches)
unfolding fetch_all
fetch_all-ChargesAll r policy session [] h = record {
  within = h;
  hops = omega arith;
  encoded = omega arith;
  decompressed = omega arith;
}
fetch_all-ChargesAll r policy session ((a, request) ∷ rest) h =
    let one = fetch-Charges r policy a session request h in
    let more =
      fetch_all-ChargesAll r policy (fetch r policy a session request).session rest one.within in
    record {
      within = more.within;
      hops = omega (arith, one.hops, more.hops);
      encoded = omega (arith, one.encoded, more.encoded);
      decompressed = omega (arith, one.decompressed, more.decompressed);
    }

-- However many requests a session is given, and whatever the resolver, the connections, the bodies
-- and the decoders answer: at most `maxHops` of its fetches call a port at all, and the encoded and
-- the decoded bytes that its successes report are, taken together, no more than its policy allows,
-- as are the hops and the bytes that it counts.
pub fetch_all-IsWithin :
    (r : Runtime) (policy : TransportPolicy) (now : ℕ)
    (fetches : List (PortAnswers × SafeFetchRequest))
    → IsWithin policy (fetch_all r policy (create_session now) fetches).0
      × (fetches_made (fetch_all r policy (create_session now) fetches).1 ≤ policy.max_hops)
      × (encoded_sum (fetch_all r policy (create_session now) fetches).1
          ≤ policy.max_response_bytes)
      × (decompressed_sum (fetch_all r policy (create_session now) fetches).1
          ≤ policy.max_decompressed_bytes)
fetch_all-IsWithin r policy now fetches =
    let all' =
      fetch_all-ChargesAll r policy (create_session now) fetches
        (record { hops = omega arith; encoded = omega arith; decompressed = omega arith }) in
    let w = all'.within in
    (
      w,
      omega (arith, all'.hops, w.hops),
      omega (arith, all'.encoded, w.encoded),
      omega (arith, all'.decompressed, w.decompressed),
    )
