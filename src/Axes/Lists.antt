-- ===== src/Axes/Lists.antt =====
-- packages/core/src/parse/runtime.ts: how the policy lists of the options are normalized.
use mathlib.Core.List.{reverse}
use linklint.Common.{
  Bool, List, Option, String, Text, [], drop_while, false, if◌then◌else◌, is_empty, none, some,
  trim, true, ℕ, ◌==◌, ◌∷◌,
}

pub record Strings : Type 0 where
  pub lower : Text → Text
  pub numeral : ℕ → Text
  pub of_units : Text → String

-- What stands in a list that a caller hands over, and the list itself. A number that is not a
-- natural one equals no port, and is another value here.
pub data ListValue : Type 0 where
  text_value : Text → ListValue
  number_value : ℕ → ListValue
  other_value : ListValue

pub data ListOption : Type 0 where
  not_given not_a_list : ListOption
  given : List ListValue → ListOption

pub record PolicyList (A : Type 0) : Type 0 where
  pub configured : Bool
  pub values : List A

abbrev is_configured : ListOption → Bool
is_configured not_given = false
is_configured not_a_list = true
is_configured (given vs) = true

abbrev values_of : ListOption → List ListValue
values_of not_given = []
values_of not_a_list = []
values_of (given vs) = vs

abbrev pub trim_list_value : ListValue → ListValue
trim_list_value (text_value t) = text_value (trim t)
trim_list_value (number_value n) = number_value n
trim_list_value other_value = other_value

module _ {A : Type 0} (normalize : ListValue → Option A) (is_blank : A → Bool) where
  -- The filter.
  abbrev keep_value : Option A → List A → List A
  keep_value none rest = rest
  keep_value (some a) rest = if is_blank a then rest else a ∷ rest

  abbrev pub normalized_values : List ListValue → List A
  normalized_values [] = []
  normalized_values (v ∷ vs) = keep_value (normalize (trim_list_value v)) (normalized_values vs)

  unfoldable pub normalized_list : ListOption → PolicyList A
  normalized_list option = record {
    configured = is_configured option;
    values = normalized_values (values_of option);
  }

-- `replace(/^\./, "")`
abbrev pub strip_dot : Text → Text
strip_dot [] = []
strip_dot (c ∷ cs) = if c == b'.' then cs else c ∷ cs

-- `replace(/^:+|:+$/g, "")`
abbrev pub strip_colons : Text → Text
strip_colons t = reverse (drop_while (λ c. c == b':') (reverse (drop_while (λ c. c == b':') t)))

abbrev pub normalize_host : Strings → ListValue → Option Text
normalize_host strings (text_value t) = some (strings.lower (strip_dot t))
normalize_host strings (number_value n) = none
normalize_host strings other_value = none

abbrev pub normalize_tld : Strings → ListValue → Option Text
normalize_tld strings (text_value t) = some (strings.lower (strip_dot t))
normalize_tld strings (number_value n) = none
normalize_tld strings other_value = none

abbrev pub normalize_scheme : Strings → ListValue → Option Text
normalize_scheme strings (text_value t) = some (strings.lower (strip_colons t))
normalize_scheme strings (number_value n) = none
normalize_scheme strings other_value = none

abbrev pub normalize_port : ListValue → Option ℕ
normalize_port (text_value t) = none
normalize_port (number_value n) = some n
normalize_port other_value = none

-- The policy keys of the options.
pub record PolicyOptions : Type 0 where
  pub deny_tlds : ListOption
  pub allow_tlds : ListOption
  pub deny_hosts : ListOption
  pub allow_hosts : ListOption
  pub deny_schemes : ListOption
  pub allow_schemes : ListOption
  pub deny_ports : ListOption
  pub deny_non_standard_ports : Bool

pub record PolicyRuntimeConfig : Type 0 where
  pub deny_tlds : PolicyList Text
  pub allow_tlds : PolicyList Text
  pub deny_hosts : PolicyList Text
  pub allow_hosts : PolicyList Text
  pub deny_schemes : PolicyList Text
  pub allow_schemes : PolicyList Text
  pub deny_ports : PolicyList ℕ
  pub deny_non_standard_ports : Bool

unfoldable pub normalize_policy_options : Strings → PolicyOptions → PolicyRuntimeConfig
unfolding normalized_list
normalize_policy_options strings o = record {
  deny_tlds = normalized_list (normalize_tld strings) is_empty o.deny_tlds;
  allow_tlds = normalized_list (normalize_tld strings) is_empty o.allow_tlds;
  deny_hosts = normalized_list (normalize_host strings) is_empty o.deny_hosts;
  allow_hosts = normalized_list (normalize_host strings) is_empty o.allow_hosts;
  deny_schemes = normalized_list (normalize_scheme strings) is_empty o.deny_schemes;
  allow_schemes = normalized_list (normalize_scheme strings) is_empty o.allow_schemes;
  deny_ports = normalized_list normalize_port (λ n. false) o.deny_ports;
  deny_non_standard_ports = o.deny_non_standard_ports;
}
