-- ===== src/Tests/Inspect.antt =====
-- Runs of packages/core/src/inspect.ts, with small tables of checks.
use linklint.Common.{
  List, String, [], false, if◌then◌else◌, map, none, refl, some, str_eq, true, ◌↔◌, ◌∷◌, ◌≡◌, ◌≤◌,
}
use linklint.Score.{lexical, policy}
use linklint.Score.Suppress.{apply_suppressions}
use linklint.Inspect.{CollectedFinding, Detector, Scan, run_detectors, run_scans}
use linklint.Inspect.Policy.{run_axes, run_policy}
use linklint.Inspect.Checks.{found}
use linklint.Inspect.Result.{ReasonCodeMeta, build_ok_result, invalid, reason_of, sort_reasons}
use linklint.Inspect.Inspection.{Engine, Options, at_context, inspect, parsed, string, unparseable}
use linklint.Inspect.Accounts.{inspect-accounts}
use linklint.Inspect.Verdict.{inspect-invalid_iff, score_or_zero, understood}
use linklint.Inspect.Failures.{inspect-lower_bound, with_detectors}

abbrev finding : String → CollectedFinding
finding code = record { code = code; detail = "d"; confusables = [] }

abbrev always : String → List CollectedFinding → Scan String
always id found = record { id = id; run = λ context. some found }

abbrev throws : String → Scan String
throws id = record { id = id; run = λ context. none }

abbrev gated : Detector String
gated = record {
  id = "prompt_injection";
  agent_gated = true;
  run = λ context. some (finding "prompt_injection" ∷ []);
}

abbrev mixed : Detector String
mixed = record {
  id = "mixed_script";
  agent_gated = false;
  run = λ context. some (finding "mixed_script" ∷ []);
}

abbrev failing : Detector String
failing = record { id = "mixed_script"; agent_gated = false; run = λ context. none }

abbrev registry : String → ReasonCodeMeta
registry code =
    if str_eq code "mixed_script"
    then record { layer = lexical; weight = 40 }
    else if str_eq code "tld_denied"
    then record { layer = policy; weight = 0 }
    else record { layer = lexical; weight = 20 }

abbrev pub engine : Engine String String
engine = record {
  structural_scans = always "bidi" (finding "bidi" ∷ []) ∷ throws "backslash" ∷ [];
  detectors = mixed ∷ gated ∷ [];
  axes = throws "tld" ∷ always "host" (finding "tld_denied" ∷ []) ∷ [];
  meta = registry;
  scan_context = λ s. s;
  is_blank = λ s. str_eq s "";
  parse_prepared = λ s. if str_eq s "http://" then unparseable else parsed s;
  describe_parse_failure = λ s. none;
  host_context = λ c. some c;
}

abbrev pub options : Options
options = record {
  skipped = "options:allowHost" ∷ [];
  agent_mode = false;
  policy_configured = true;
  suppress_configured = false;
  suppress_reasons = [];
}

inspect_run :
    (map (λ r. r.code) (inspect engine options (string "a.b")).reasons
      ≡ "mixed_script" ∷ "bidi" ∷ "tld_denied" ∷ [])
    × ((inspect engine options (string "a.b")).checks_skipped
        ≡ "options:allowHost" ∷ "lexical:backslash" ∷ "policy:tld" ∷ "resolution" ∷ "reputation"
          ∷ [])
    × ((inspect engine options (string "a.b")).checks_run ≡ "lexical" ∷ "policy" ∷ [])
unfolding inspect at_context build_ok_result sort_reasons run_scans run_detectors run_policy
    run_axes apply_suppressions
inspect_run = (refl, refl, refl)

inspect-accounts_example :
    ((inspect engine options (string "a.b")).reasons
      ≡ sort_reasons (
          map
            (reason_of registry)
            (finding "bidi" ∷ finding "mixed_script" ∷ finding "tld_denied" ∷ [])))
    × ((inspect engine options (string "a.b")).checks_skipped
        ≡ "options:allowHost" ∷ "lexical:backslash" ∷ "policy:tld" ∷ "resolution" ∷ "reputation"
          ∷ [])
unfolding run_policy run_axes apply_suppressions
inspect-accounts_example = inspect-accounts engine options "a.b" "a.b" refl

inspect-invalid_iff_example :
    (((inspect engine options (string "http://")).status ≡ invalid)
      ↔ (understood engine options (string "http://") ≡ none))
    × (((inspect engine options (string "http://")).score ≡ none)
        ↔ (understood engine options (string "http://") ≡ none))
    × (((inspect engine options (string "http://")).severity ≡ none)
        ↔ (understood engine options (string "http://") ≡ none))
inspect-invalid_iff_example = inspect-invalid_iff engine options (string "http://")

inspect-lower_bound_example :
    score_or_zero (inspect (with_detectors engine (gated ∷ failing ∷ [])) options (string "a.b"))
    ≤ score_or_zero (inspect (with_detectors engine (gated ∷ mixed ∷ [])) options (string "a.b"))
inspect-lower_bound_example =
    inspect-lower_bound engine options (string "a.b") (gated ∷ []) [] failing mixed
      (λ context. refl)
