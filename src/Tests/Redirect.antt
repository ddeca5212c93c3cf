-- ===== src/Tests/Redirect.antt =====
-- Runs of packages/online/src/resolution/redirect-chain.ts.
use linklint.Common.{
  Text, [], codes, false, if◌then◌else◌, length, ltb, none, refl, some, text_eq, ℕ, ◌<◌, ◌∷◌, ◌≡◌,
  ◌≤◌,
}
use linklint.Redirect.{
  Environment, Response, follow, followed, get, granted, http_redirect, initial, success,
}
use linklint.Redirect.Transition.{
  match_refresh, single_header, transition_for, unquote_refresh_target,
}
use linklint.Redirect.Transition.Targets.{IsAllowed, transition_for-IsAllowed}
use linklint.Redirect.Loop.{
  Chain, ChainOptions, authorizes, canonical_http_url, enrich, enrich_input, fetches, loop, round,
  start,
}
use linklint.Redirect.Loop.Budget.{enrich-Ends}
use linklint.Redirect.Loop.Rounds.{Unseen, fetched_urls}
use linklint.Redirect.Loop.Links.{Linked, enrich-Linked, enrich-Unseen}

abbrev home : Text
home = codes "https://a.test/"

abbrev away : Text
away = codes "http://b.test/"

abbrev moved : Response
moved = record {
  status = 302;
  headers = (codes "location", codes " http://b.test/ " ∷ []) ∷ [];
  body = [];
}

abbrev page : Response
page = record { status = 200; headers = []; body = [] }

-- Every text is its own URL; the first page redirects, and all is authorized.
abbrev platform : Environment ℕ ℕ
platform = record {
  lower = λ s. s;
  parse_url = λ raw base. some (record {
    protocol = if text_eq raw home then codes "https:" else codes "http:";
    href = raw;
  });
  parse_absolute = λ raw. some (record { protocol = codes "https:"; href = raw }, raw);
  delay = λ digits. none;
  exceeds = λ a b. ltb b a;
  content_type = λ s. none;
  decode_html = λ body charset. none;
  meta_refresh = λ text. none;
  inspect = length;
  aborted = λ hops. false;
  authorize = λ request. granted;
  fetch = λ hop url. success (if text_eq url home then moved else page);
}

abbrev options : ChainOptions ℕ
options = record {
  method = get;
  max_hops = 10;
  policy = record { max_bytes = 65536; max_delay_ms = 5000 };
}

abbrev result : Chain ℕ ℕ
result = record {
  hops =
      record {
        url = home;
        hop = 1;
        reason = initial;
        from_url = none;
        response = moved;
        offline = 15;
        transition = some (record { kind = http_redirect; target_url = away; delay_ms = none });
      }
      ∷ record {
        url = away;
        hop = 2;
        reason = followed http_redirect;
        from_url = some home;
        response = page;
        offline = 14;
        transition = none;
      }
      ∷ [];
  calls =
      authorizes (record { url = home; hop = 1; method = get; reason = initial; from_url = none })
      ∷ fetches 1 home
      ∷ authorizes (record {
        url = away;
        hop = 2;
        method = get;
        reason = followed http_redirect;
        from_url = some home;
      })
      ∷ fetches 2 away
      ∷ [];
  stopped = none;
}

redirect_runs : Unit {0}
unfolding enrich loop round transition_for single_header match_refresh unquote_refresh_target
    enrich_input canonical_http_url
redirect_runs = tt

enrich_run : enrich platform options home ≡ some result
unfolding redirect_runs
enrich_run = refl

match_refresh_run :
    (match_refresh (codes " 0.5 ; URL = 'x y' ") ≡ some (codes "0.5", codes "'x y'"))
    × (match_refresh (codes "5;") ≡ none)
    × (unquote_refresh_target (codes " 'x y' ") ≡ codes "x y")
unfolding redirect_runs
match_refresh_run = (refl, refl, refl)

moved_run :
    transition_for platform moved home get options.policy
    ≡ follow (record { kind = http_redirect; target_url = away; delay_ms = none })
unfolding redirect_runs
moved_run = refl

transition_for-IsAllowed_example :
    IsAllowed platform home get 5000
      (record { kind = http_redirect; target_url = away; delay_ms = none })
transition_for-IsAllowed_example =
    transition_for-IsAllowed platform moved home get options.policy
      (record { kind = http_redirect; target_url = away; delay_ms = none }) moved_run

enrich-Ends_example :
    (chain : Chain ℕ ℕ) × (enrich platform options home ≡ some chain)
    × ((fuel : ℕ)
        → 10 < fuel
        → loop platform options fuel (start platform options home) ≡ some chain)
    × (length chain.hops ≤ 10)
enrich-Ends_example = enrich-Ends platform options home

enrich-Linked_example : Linked platform options 0 home initial none result.hops result.calls
enrich-Linked_example = enrich-Linked platform options home result enrich_run

enrich-Unseen_example : Unseen [] (fetched_urls result.calls)
enrich-Unseen_example = enrich-Unseen platform options home result enrich_run
