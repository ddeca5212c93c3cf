-- ===== src/Redirect.antt =====
-- packages/online/src/resolution/redirect-chain.ts: the redirect chain. What the enricher is
-- handed (the transport, the authorizer, the abort signal) and what the platform gives (URL parsing,
-- text decoding, numbers) is the record `Environment`; so are the offline `inspect` and the scan of
-- the HTML for a refresh tag, which this file does not open.
pub mod Transition
pub mod Loop
use linklint.Common.{
  Bool, List, Number, Option, Text, if◌then◌else◌, leb, min, none, positive, some, ℕ, ◌-◌, ◌^◌,
}

pub data TransportMethod : Type 0 where
  get head : TransportMethod

pub data TransitionKind : Type 0 where
  http_redirect http_refresh html_meta_refresh : TransitionKind

pub data AuthorizationReason : Type 0 where
  initial : AuthorizationReason
  followed : TransitionKind → AuthorizationReason

pub record AuthorizationRequest : Type 0 where
  pub url : Text
  pub hop : ℕ
  pub method : TransportMethod
  pub reason : AuthorizationReason
  pub from_url : Option Text

-- The authorizer may throw, answer `null`, or hand out an authorization.
pub data Authorization : Type 0 where
  threw refused granted : Authorization

pub record Response : Type 0 where
  pub status : ℕ
  pub headers : List (Text × List Text)
  pub body : List ℕ

-- A blocked fetch degrades as skipped, an incomplete one as a failure.
pub data FetchOutcome : Type 0 where
  success : Response → FetchOutcome
  blocked incomplete : (cause : Text) → FetchOutcome

pub data OutcomeStatus : Type 0 where
  skipped failure : OutcomeStatus

-- A URL that the platform parsed.
pub record Url : Type 0 where
  pub protocol : Text
  pub href : Text

pub record FollowTransition (D : Type 0) : Type 0 where
  pub kind : TransitionKind
  pub target_url : Text
  pub delay_ms : Option D

pub data TransitionDecision (D : Type 0) : Type 0 where
  terminal : TransitionDecision D
  follow : FollowTransition D → TransitionDecision D
  stop : OutcomeStatus → (code : Text) → (target_url : Option Text) → TransitionDecision D

-- `D` holds delays and `I` offline results.
pub record Environment (D I : Type 0) : Type 0 where
  -- `toLowerCase`
  pub lower : Text → Text
  -- `new URL(raw, base)` and `hash = ""`
  pub parse_url : Text → Text → Option Url
  -- `new URL(raw)`, and its `href` once `hash = ""` is set
  pub parse_absolute : Text → Option (Url × Text)
  -- `Number(digits) * 1000`, `none` if not finite, and `>`
  pub delay : Text → Option D
  pub exceeds : D → D → Bool
  -- `parseContentType` of a header value, and `decodeHtml`
  pub content_type : Text → Option (Text × Option Text)
  pub decode_html : List ℕ → Option Text → Option Text
  -- `firstMetaRefreshContent`
  pub meta_refresh : Text → Option Text
  -- the synchronous `inspect`
  pub inspect : Text → I
  -- the signal at the head of the round after so many hops, the authorizer, and the session's fetch
  -- of a hop
  pub aborted : ℕ → Bool
  pub authorize : AuthorizationRequest → Authorization
  pub fetch : ℕ → Text → FetchOutcome

pub record RefreshPolicy (D : Type 0) : Type 0 where
  pub max_bytes : ℕ
  pub max_delay_ms : D

abbrev pub max_chain_url_length : ℕ
max_chain_url_length = 16384

abbrev pub default_max_hops : ℕ
default_max_hops = 10

abbrev pub max_hops_limit : ℕ
max_hops_limit = 32

-- `boundedInteger`; the model's numbers are whole, and those above 2^53 - 1 are not safe.
unfoldable pub bounded_integer : Option Number → ℕ → ℕ → ℕ
bounded_integer none fallback maximum = fallback
bounded_integer (some value) fallback maximum = elim (positive value) [
  | none ↦ fallback
  | some n ↦ if leb n (2 ^ 53 - 1) then min n maximum else fallback
]
