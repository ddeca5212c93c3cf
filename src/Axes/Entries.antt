-- ===== src/Axes/Entries.antt =====
-- What a caller's lists let pass (packages/core/src/policy and parse/runtime.ts).
use linklint.Common.{
  Bool, List, String, Text, [], any, false, if◌then◌else◌, is_empty, not, refl, str_eq, sym,
  text_eq, trim, true, ◌&&◌, ◌++◌, ◌||◌, ◌∷◌, ◌≡◌,
}
use linklint.Inspect.{CollectedFinding}
use linklint.Axes.Lists.{
  ListOption, ListValue, PolicyOptions, Strings, given, normalize_host, normalize_policy_options,
  normalized_list, normalized_values, not_a_list, not_given, number_value, other_value, strip_dot,
  text_value,
}
use linklint.Axes.{AxisContext, find_if, has_text_value, is_truthy, run_host_axis}

abbrev pub has_code : String → List CollectedFinding → Bool
has_code code fs = any (λ f. str_eq f.code code) fs

-- Whether an entry of a caller's list names the domain: after `trim`, one leading dot and the letter
-- case do not count; a blank entry, or one that is no text, names none.
abbrev pub names : Strings → Text → ListValue → Bool
names strings domain (text_value t) =
    not (is_empty (strings.lower (strip_dot (trim t))))
    && text_eq domain (strings.lower (strip_dot (trim t)))
names strings domain (number_value n) = false
names strings domain other_value = false

-- Whether some entry does, and whether the option is there at all.
abbrev pub some_names : Strings → Text → ListOption → Bool
some_names strings domain not_given = false
some_names strings domain not_a_list = false
some_names strings domain (given vs) = any (names strings domain) vs

abbrev pub is_given : ListOption → Bool
is_given not_given = false
is_given not_a_list = true
is_given (given vs) = true

any-unless :
    (p : Text → Bool) (b : Bool) (t : Text) (ts : List Text)
    → any p (if b then ts else t ∷ ts) ≡ (not b && p t) || any p ts
any-unless p true t ts = refl
any-unless p false t ts = refl

normalized_values-names :
    (strings : Strings) (domain : Text) (vs : List ListValue)
    → has_text_value domain (normalized_values (normalize_host strings) is_empty vs)
      ≡ any (names strings domain) vs
normalized_values-names strings domain [] = refl
normalized_values-names strings domain (text_value t ∷ vs) =
    let entry = strings.lower (strip_dot (trim t)) in
    rw
      (any-unless (text_eq domain) (is_empty entry) entry
        (normalized_values (normalize_host strings) is_empty vs))
      (rw (normalized_values-names strings domain vs) refl)
normalized_values-names strings domain (number_value n ∷ vs) =
    normalized_values-names strings domain vs
normalized_values-names strings domain (other_value ∷ vs) =
    normalized_values-names strings domain vs

normalized_list-names :
    (strings : Strings) (domain : Text) (o : ListOption)
    → (has_text_value domain (normalized_list (normalize_host strings) is_empty o).values
        ≡ some_names strings domain o)
      × ((normalized_list (normalize_host strings) is_empty o).configured ≡ is_given o)
unfolding normalized_list
normalized_list-names strings domain not_given = (refl, refl)
normalized_list-names strings domain not_a_list = (refl, refl)
normalized_list-names strings domain (given vs) = (normalized_values-names strings domain vs, refl)

host_codes :
    (strings : Strings) (on b d : Bool) (detail detail' : Text)
    → (has_code "host_denied" (
          if on
          then find_if strings b "host_denied" detail
            ++ find_if strings d "host_not_allowlisted" detail'
          else [])
        ≡ on && b)
      × (has_code "host_not_allowlisted" (
            if on
            then find_if strings b "host_denied" detail
              ++ find_if strings d "host_not_allowlisted" detail'
            else [])
          ≡ on && d)
host_codes strings false b d detail detail' = (refl, refl)
host_codes strings true true true detail detail' = (refl, refl)
host_codes strings true true false detail detail' = (refl, refl)
host_codes strings true false true detail detail' = (refl, refl)
host_codes strings true false false detail detail' = (refl, refl)

-- A host with a registrable domain is denied exactly where an entry of the caller's deny-list names
-- the domain, and is reported as not allowed exactly where there is an allow-list, even an empty one
-- or a value that is no list, and none of its entries names it. A host without one is never reported.
pub run_host_axis-names :
    (strings : Strings) (c : AxisContext) (o : PolicyOptions)
    → c.policy ≡ normalize_policy_options strings o
    → (has_code "host_denied" (run_host_axis strings c)
        ≡ is_truthy c.registrable_domain
          && some_names strings c.registrable_domain_lower o.deny_hosts)
      × (has_code "host_not_allowlisted" (run_host_axis strings c)
          ≡ is_truthy c.registrable_domain
            && (is_given o.allow_hosts
                && not (some_names strings c.registrable_domain_lower o.allow_hosts)))
unfolding run_host_axis normalize_policy_options
run_host_axis-names strings c o h =
    let deny = normalized_list-names strings c.registrable_domain_lower o.deny_hosts in
    let allow = normalized_list-names strings c.registrable_domain_lower o.allow_hosts in
    rw (h, sym (deny.0), sym (allow.0), sym (allow.1)) (host_codes strings _ _ _ _ _)
