-- ===== src/Transport/Fetch/Replies.antt =====
-- The answer to a request of a fetch of safe-transport.ts, and what a success reports of it.
use linklint.Common.{false, if_cases, length, not, refl, ℕ, ◌==◌, ◌≡◌}
use linklint.Transport.{
  Answer, AttemptState, BodyEnd, HttpRequest, PortAnswers, Runtime, SafeFetchResponse, SafeSession,
  SuccessResponse, Work, WorkEnd, body_hangs, body_threw, exceeds_header_budget, fulfilled, joined,
  rejected, remaining_time_ms, returned, status_ok, success,
}
use linklint.Transport.Policy.{TransportPolicy}
use linklint.Transport.Decoding.{Decoded, content_error, decoded, limit_error, unsupported_error}
use linklint.Transport.Exchange.{with_body, with_decoded, with_response}

module _ (r : Runtime) (policy : TransportPolicy) (a : PortAnswers) where
  -- The response of a success is the answer to the request, which has passed the checks of a head.
  pub record IsReply (q : HttpRequest) (response : SuccessResponse) : Type 0 where
    pub reply : SafeFetchResponse
    pub replied : a.request q ≡ fulfilled reply
    pub status : response.status ≡ reply.status
    pub headers : response.headers ≡ reply.headers
    pub in_range : not (status_ok reply.status) ≡ false
    pub in_budget : exceeds_header_budget reply.headers policy ≡ false

  abbrev pub Replies : HttpRequest → WorkEnd → Type 0
  Replies q (returned (success state response)) = IsReply q response
  Replies q _ = Unit

  with_decoded-Replies :
      (q : HttpRequest) (session : SafeSession) (state : AttemptState) (reply : SafeFetchResponse)
      (encoded : ℕ) (d : Decoded)
      → a.request q ≡ fulfilled reply
      → not (status_ok reply.status) ≡ false
      → exceeds_header_budget reply.headers policy ≡ false
      → Replies q (with_decoded r policy a session state reply encoded d).ending
  with_decoded-Replies q session state reply encoded (decoded body) e good small =
      if_cases (λ (w : Work). Replies q w.ending)
        (remaining_time_ms policy session a.decoded_at == 0) (λ late. tt)
        (λ on. record {
          reply = reply;
          replied = e;
          status = refl;
          headers = refl;
          in_range = good;
          in_budget = small;
        })
  with_decoded-Replies q session state reply encoded limit_error e good small = tt
  with_decoded-Replies q session state reply encoded unsupported_error e good small = tt
  with_decoded-Replies q session state reply encoded content_error e good small = tt

  with_body-Replies :
      (q : HttpRequest) (session : SafeSession) (state : AttemptState) (reply : SafeFetchResponse)
      (b : BodyEnd)
      → a.request q ≡ fulfilled reply
      → not (status_ok reply.status) ≡ false
      → exceeds_header_budget reply.headers policy ≡ false
      → Replies q (with_body r policy a session state reply b).ending
  with_body-Replies q session state reply body_hangs e good small = tt
  with_body-Replies q session state reply (body_threw thrown) e good small = tt
  with_body-Replies q session state reply (joined encoded) e good small =
      if_cases (λ (w : Work). Replies q w.ending) a.aborted_body (λ late. tt)
        (λ on. with_decoded-Replies q session state reply (length encoded) _ e good small)

  pub with_response-Replies :
      (q : HttpRequest) (session : SafeSession) (state : AttemptState)
      (answer : Answer SafeFetchResponse)
      → a.request q ≡ answer
      → Replies q (with_response r policy a session state answer).ending
  unfolding with_response
  with_response-Replies q session state (rejected f) e = tt
  with_response-Replies q session state (fulfilled reply) e =
      let P = λ (w : Work). Replies q w.ending in
      if_cases P a.aborted_http (λ late. tt)
        (λ on.
          if_cases P (not (status_ok reply.status)) (λ bad. tt)
            (λ good.
              if_cases P (exceeds_header_budget reply.headers policy) (λ large. tt)
                (λ small. with_body-Replies q _ state reply _ e good small)))
