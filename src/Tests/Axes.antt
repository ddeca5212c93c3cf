-- ===== src/Tests/Axes.antt =====
-- Runs of packages/core/src/policy.
use linklint.Common.{
  String, Text, [], codes, false, if◌then◌else◌, leb, map, refl, some, true, ◌&&◌, ◌+◌, ◌∷◌, ◌≡◌,
}
use linklint.Inspect.Inspection.{Engine, inspect, string}
use linklint.Inspect.Verdict.{with_policy}
use linklint.Tests.Inspect.{engine, options}
use linklint.Score.{policy}
use linklint.Axes.Lists.{
  ListOption, PolicyOptions, Strings, given, normalize_policy_options, normalized_list, not_given,
  number_value, text_value,
}
use linklint.Axes.{
  AxisContext, policy_axes, run_host_axis, run_port_axis, run_scheme_axis, run_tld_axis,
}
use linklint.Axes.Neutral.{policy_axes-neutral, with_axes}
use linklint.Axes.Entries.{has_code, run_host_axis-names}

abbrev ascii_lower : Text → Text
ascii_lower [] = []
ascii_lower (c ∷ cs) = (if leb 65 c && leb c 90 then c + 32 else c) ∷ ascii_lower cs

abbrev strings : Strings
strings = record { lower = ascii_lower; numeral = λ n. n ∷ []; of_units = λ t. "detail" }

abbrev absent_list : ListOption
absent_list = not_given

abbrev policy_options : PolicyOptions
policy_options = record {
  deny_tlds = absent_list;
  allow_tlds = absent_list;
  deny_hosts = given (number_value 7 ∷ text_value (codes " .Evil.COM ") ∷ []);
  allow_hosts = given (text_value (codes " . ") ∷ []);
  deny_schemes = absent_list;
  allow_schemes = given (text_value (codes "https:") ∷ []);
  deny_ports = absent_list;
  deny_non_standard_ports = true;
}

abbrev context : AxisContext
context = record {
  host_text = codes "www.evil.com";
  registrable_domain = some (codes "evil.com");
  registrable_domain_lower = codes "evil.com";
  public_suffix = some (codes "com");
  public_suffix_tld = codes "com";
  scheme = some (codes "HTTPS");
  port = some 444;
  policy = normalize_policy_options strings policy_options;
}

axes_run :
    (map (λ f. f.code) (run_host_axis strings context)
      ≡ "host_denied" ∷ "host_not_allowlisted" ∷ [])
    × (map (λ f. f.code) (run_scheme_axis strings context) ≡ [])
    × (map (λ f. f.code) (run_port_axis strings context) ≡ "port_denied" ∷ [])
    × (map (λ f. f.code) (run_tld_axis strings context) ≡ [])
unfolding run_host_axis run_scheme_axis run_port_axis run_tld_axis normalize_policy_options
    normalized_list
axes_run = (refl, refl, refl, refl)

run_host_axis-names_example :
    (has_code "host_denied" (run_host_axis strings context) ≡ true)
    × (has_code "host_not_allowlisted" (run_host_axis strings context) ≡ true)
run_host_axis-names_example = run_host_axis-names strings context policy_options refl

abbrev unweighted : Engine String String
unweighted = record engine { meta = λ code. record { layer = policy; weight = 0 } }

policy_axes-neutral_example :
    ((inspect
        (with_axes unweighted (policy_axes strings (λ c. context)))
        (with_policy options true)
        (string "a.b")).score
      ≡ (inspect
          (with_axes unweighted (policy_axes strings (λ c. context)))
          (with_policy options false)
          (string "a.b")).score)
    × ((inspect
          (with_axes unweighted (policy_axes strings (λ c. context)))
          (with_policy options true)
          (string "a.b")).severity
        ≡ (inspect
            (with_axes unweighted (policy_axes strings (λ c. context)))
            (with_policy options false)
            (string "a.b")).severity)
policy_axes-neutral_example =
    policy_axes-neutral strings (λ c. context) unweighted options (string "a.b")
      (refl, (refl, (refl, (refl, (refl, (refl, tt))))))
