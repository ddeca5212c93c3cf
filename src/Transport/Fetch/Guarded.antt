-- ===== src/Transport/Fetch/Guarded.antt =====
-- A fetch of safe-transport.ts as a whole: the calls that it may make, and what a success rests on.
use linklint.Common.{List, [], false, suc, true, ◌<◌, ◌∷◌, ◌≡◌}
use linklint.Transport.{
  ConnectRequest, Connection, HttpRequest, PortAnswers, PortCall, Runtime, SafeFetchOutcome,
  SafeFetchRequest, SafeSession, SuccessResponse, Work, closes, connects, fulfilled,
  remaining_time_ms, requests, resolves, success, unbracket,
}
use linklint.Transport.Policy.{TransportPolicy}
use linklint.Transport.RequestHeaders.{UrlObject}
use linklint.Transport.Fetch.Replies.{IsReply, Replies}
use linklint.Transport.Fetch.{Fetched, execute, first_state, of_work}
use linklint.Transport.Fetch.Pinned.{IsAccepted, IsPinned, IsVerified}

module _ (r : Runtime) (policy : TransportPolicy) (a : PortAnswers) where
  abbrev pub work_of : SafeSession → SafeFetchRequest → Work
  work_of session request =
      execute r policy a (record session { hops = suc session.hops })
        (first_state r policy session request) request

  -- Before the work: the authorization names this very URL, hops and time are left, and the caller
  -- has not aborted.
  pub record Started (session : SafeSession) (request : SafeFetchRequest) : Type 0 where
    pub authorized : request.destination_fetch ≡ true
    pub same_url : request.authorized_url ≡ request.url
    pub hops : session.hops < policy.max_hops
    pub wanted : a.aborted_before ≡ false
    pub time : 0 < remaining_time_ms policy session a.started_at

  abbrev NotSuccess : SafeFetchOutcome → Type 0
  NotSuccess (success state response) = ⊥
  NotSuccess _ = Unit

  -- Refused before any call, with the session as it was; or what the work makes of it.
  data Fetches (session : SafeSession) (request : SafeFetchRequest) (f : Fetched) : Type 0 where
    refuses : f.session ≡ session → f.calls ≡ [] → NotSuccess f.outcome → Fetches session request f
    works :
        Started session request
        → f ≡ of_work r policy a (work_of session request)
        → Fetches session request f

  -- What a success has behind it.
  pub record IsTrusted (request : SafeFetchRequest) (calls : List PortCall)
      (response : SuccessResponse) : Type 0 where
    pub url : UrlObject
    pub asked : ConnectRequest
    pub connection : Connection
    pub sent : HttpRequest
    pub accepted_url : IsAccepted r policy a request url
    pub pinned_to : IsPinned r policy a url asked
    pub answered : a.connect asked ≡ fulfilled connection
    pub verified_peer : IsVerified r policy a asked connection
    pub sent_there : sent.connection_id ≡ connection.id
    pub sent_url : sent.url ≡ url.href
    pub reply : IsReply r policy a sent response
    pub called :
        calls
        ≡ resolves (unbracket url.hostname)
          ∷ connects asked
          ∷ requests sent
          ∷ closes connection.id
          ∷ []
