-- ===== src/Axes.antt =====
-- packages/core/src/policy: the four axes of tld.ts, host.ts, scheme.ts and port.ts with the table of
-- axes.ts, and the caller's lists that they read, as parse/runtime.ts normalizes them. Lower case,
-- the numerals in a detail and the string of some code units are the platform's.
pub mod Lists
pub mod Neutral
pub mod Entries
use linklint.Common.{
  Bool, List, Option, String, Text, [], any, codes, false, if◌then◌else◌, is_empty, none, not, some,
  text_eq, ℕ, ◌&&◌, ◌++◌, ◌==◌, ◌||◌, ◌∷◌,
}
use linklint.Axes.Lists.{PolicyList, PolicyRuntimeConfig, Strings}
use linklint.Inspect.{CollectedFinding, Scan}

-- What the axes read of the inspection's context.
pub record AxisContext : Type 0 where
  pub host_text : Text
  pub registrable_domain : Option Text
  pub registrable_domain_lower : Text
  pub public_suffix : Option Text
  pub public_suffix_tld : Text
  pub scheme : Option Text
  pub port : Option ℕ
  pub policy : PolicyRuntimeConfig

abbrev pub is_truthy : Option Text → Bool
is_truthy none = false
is_truthy (some t) = not (is_empty t)

abbrev pub has_text_value : Text → List Text → Bool
has_text_value t ts = any (text_eq t) ts

abbrev join_values : List Text → Text
join_values [] = []
join_values (t ∷ []) = t
join_values (t ∷ u ∷ ts) = t ++ codes ", " ++ join_values (u ∷ ts)

abbrev pub or_empty : Option Text → Text
or_empty none = []
or_empty (some t) = t

module _ (strings : Strings) where
  abbrev pub finding_of : String → Text → CollectedFinding
  finding_of code detail = record {
    code = code;
    detail = strings.of_units detail;
    confusables = [];
  }

  abbrev pub find_if : Bool → String → Text → List CollectedFinding
  find_if b code detail = if b then finding_of code detail ∷ [] else []

  abbrev allow_note : PolicyList Text → Text
  allow_note allowed =
      codes " is not on the caller allow-list ([" ++ join_values allowed.values ++ codes "])"

  unfoldable pub run_tld_axis : AxisContext → List CollectedFinding
  run_tld_axis c =
      let tld = strings.lower c.public_suffix_tld in
      let name = codes "TLD '." ++ tld ++ codes "'" in
      let allowed = c.policy.allow_tlds in
      if is_truthy c.public_suffix
      then find_if (has_text_value tld c.policy.deny_tlds.values) "tld_denied"
          (name ++ codes " is on the caller deny-list")
        ++ find_if (allowed.configured && not (has_text_value tld allowed.values))
            "tld_not_allowlisted" (name ++ allow_note allowed)
      else []

  unfoldable pub run_host_axis : AxisContext → List CollectedFinding
  run_host_axis c =
      let name =
        codes "Host '"
        ++ c.host_text
        ++ codes "' (registrable domain '"
        ++ c.registrable_domain_lower
        ++ codes "')" in
      let allowed = c.policy.allow_hosts in
      if is_truthy c.registrable_domain
      then find_if (has_text_value c.registrable_domain_lower c.policy.deny_hosts.values)
          "host_denied" (name ++ codes " is on the caller deny-list")
        ++ find_if
            (allowed.configured && not (has_text_value c.registrable_domain_lower allowed.values))
            "host_not_allowlisted" (name ++ allow_note allowed)
      else []

  unfoldable pub run_scheme_axis : AxisContext → List CollectedFinding
  run_scheme_axis c =
      let scheme = strings.lower (or_empty c.scheme) in
      let name = codes "scheme '" ++ scheme ++ codes "'" in
      let allowed = c.policy.allow_schemes in
      if is_truthy c.scheme
      then find_if (has_text_value scheme c.policy.deny_schemes.values) "scheme_denied"
          (name ++ codes " is on the caller deny-list")
        ++ find_if (allowed.configured && not (has_text_value scheme allowed.values))
            "scheme_denied" (name ++ allow_note allowed)
      else []

  -- `STANDARD_PORTS[scheme]`, for the table's own keys: `constructor` and `__proto__` find a value of
  -- the prototype, which equals no port and only changes the detail.
  abbrev pub standard_port : Text → Option ℕ
  standard_port scheme =
      if text_eq scheme (codes "http") || text_eq scheme (codes "ws")
      then some 80
      else if text_eq scheme (codes "https") || text_eq scheme (codes "wss")
      then some 443
      else if text_eq scheme (codes "ftp")
      then some 21
      else none

  -- The scheme in lower case, where it is not empty.
  abbrev pub lower_scheme : Option Text → Option Text
  lower_scheme none = none
  lower_scheme (some t) = if is_empty t then none else some (strings.lower t)

  abbrev pub standard_for : Option Text → Option ℕ
  standard_for none = none
  standard_for (some scheme) = standard_port scheme

  abbrev pub is_standard : Option ℕ → ℕ → Bool
  is_standard none port = false
  is_standard (some standard) port = port == standard

  abbrev expected_note : Option Text → Option ℕ → Text
  expected_note scheme (some standard) =
      codes " (expected " ++ strings.numeral standard ++ codes ")"
  expected_note (some scheme) none = codes " (no standard port for scheme '" ++ scheme ++ codes "')"
  expected_note none none = []

  abbrev scheme_or_mark : Option Text → Text
  scheme_or_mark none = codes "?"
  scheme_or_mark (some scheme) = scheme

  abbrev pub at_port : AxisContext → Option ℕ → List CollectedFinding
  at_port c none = []
  at_port c (some port) =
      let scheme = lower_scheme c.scheme in
      let standard = standard_for scheme in
      let name = codes "port " ++ strings.numeral port in
      if any (λ n. n == port) c.policy.deny_ports.values
      then finding_of "port_denied" (name ++ codes " is on the caller deny-list") ∷ []
      else find_if (c.policy.deny_non_standard_ports && not (is_standard standard port))
          "port_denied"
          (name
            ++ codes " is non-standard for scheme '"
            ++ scheme_or_mark scheme
            ++ codes "'"
            ++ expected_note scheme standard)

  unfoldable pub run_port_axis : AxisContext → List CollectedFinding
  run_port_axis c = at_port c c.port

  -- `POLICY_AXIS_DESCRIPTORS`, over what an engine's context carries for the axes.
  unfoldable pub policy_axes : {C : Type 0} → (C → AxisContext) → List (Scan C)
  unfolding run_tld_axis run_host_axis run_scheme_axis run_port_axis
  policy_axes view =
      record { id = "tld"; run = λ c. some (run_tld_axis (view c)) }
      ∷ record { id = "host"; run = λ c. some (run_host_axis (view c)) }
      ∷ record { id = "scheme"; run = λ c. some (run_scheme_axis (view c)) }
      ∷ record { id = "port"; run = λ c. some (run_port_axis (view c)) }
      ∷ []
