-- ===== src/Tests/Governor.antt =====
-- Runs of packages/core/src/enrichment-governor.ts.
use linklint.Common.{
  List, [], arith, erase, finite, insert, lookup, nan, none, pos, refl, some, ◌*◌, ◌+◌, ◌-◌, ◌<◌,
  ◌↔◌, ◌∷◌, ◌≡◌, ◌≢◌, ◌≤◌,
}
use linklint.Governor.{
  Policy, admit, admitted, backoff_active, create, denied, millis, omitted, rate_limited,
  record_failure, record_success, refill, state_for,
}
use linklint.Governor.Bucket.{Call, accrual, admissions, admitting, run}
use linklint.Governor.Rate.{admissions-bound}
use linklint.Governor.Backoff.{admit-fail_iff, admit-record_success, admit-run-only, fail, window}

-- Two tokens, one more a second, and a backoff of 100, 200, 250, 250, … ms.
abbrev policy : Policy
policy = record {
  default_timeout_ms = some (finite (pos 5000));
  capacity = 2;
  refill_interval_ms = finite (pos 1000);
  backoff_base_ms = 100;
  backoff_max_ms = 250;
}

abbrev burst : List Call
burst =
    admitting 500 "rep:tls"
    ∷ admitting 400 "rep:dns"
    ∷ admitting 300 "rep:tls"
    ∷ admitting 200 "rep:tls"
    ∷ admitting 100 "rep:tls"
    ∷ []

governor_runs : Unit {0}
unfolding admit record_success record_failure refill state_for run admissions lookup insert erase
    create
governor_runs = tt

burst_spent :
    (admissions policy "rep:tls" burst ≡ 2)
    × ((admit policy "rep:tls" (run policy burst) 700).0 ≡ denied rate_limited)
    × ((admit policy "rep:tls" (run policy burst) 1200).0 ≡ admitted (millis 5000))
unfolding governor_runs
burst_spent = (refl, refl, refl)

create_run :
    create (record {
      default_timeout_ms = omitted;
      capacity = some (finite (pos 0));
      refill_interval_ms = none;
      backoff_base_ms = some nan;
      backoff_max_ms = some (finite (pos 7));
    })
    ≡ record {
      default_timeout_ms = some (finite (pos 5000));
      capacity = 10;
      refill_interval_ms = finite (pos 1000);
      backoff_base_ms = 1000;
      backoff_max_ms = 7;
    }
unfolding governor_runs
create_run = refl

admissions-bound_example :
    admissions policy "rep:tls" burst * 1000 ≤ 2 * 1000 + accrual policy (500 - 100)
admissions-bound_example = admissions-bound policy 100 500 "rep:tls" burst (omega arith)

admit-fail_iff_example :
    ((admit policy "rep:tls"
        (fail policy "rep:tls" (30 ∷ 20 ∷ []) (record_success policy "rep:tls" [] 5))
        229).0
      ≡ denied backoff_active)
    ↔ (229 < 30 + window policy 2)
admit-fail_iff_example = admit-fail_iff policy "rep:tls" [] 5 30 229 (20 ∷ [])

admit-record_success_example :
    (admit policy "rep:tls" (record_success policy "rep:tls" (run policy burst) 600) 0).0
    ≢ denied backoff_active
admit-record_success_example = admit-record_success policy "rep:tls" (run policy burst) 600 0

admit-run-only_example :
    (admit policy "rep:dns" (run policy burst) 700).0
    ≡ (admit policy "rep:dns" (run policy (admitting 400 "rep:dns" ∷ [])) 700).0
admit-run-only_example = admit-run-only policy "rep:dns" burst 700
