-- ===== src/Pin.antt =====
-- packages/online/src/transport/pin.ts and address.ts: the address that a connection is pinned to.
-- The platform's `isIP` and `BlockList.check`, the core's `classifyHost` and the resolver are
-- arguments.
pub mod Answers
use linklint.Common.{
  Bool, List, Number, Option, String, [], any, false, finite, if◌then◌else◌, map, none, not, pos,
  some, true, ℕ, ◌&&◌, ◌==◌, ◌||◌, ◌∷◌,
}

pub data Category : Type 0 where
  ip_cloud_metadata ip_loopback ip_link_local ip_private ip_reserved : Category
  documentation benchmark discard transition invalid : Category

pub record DnsAddress : Type 0 where
  pub address : String
  pub family : ℕ
  pub ttl_seconds : Number

pub record TransportAddressDecision : Type 0 where
  pub address : String
  pub family : Option ℕ
  pub allowed : Bool
  pub category : Option Category

pub record SupplementalRule : Type 0 where
  pub category : Category
  pub family : ℕ
  pub check : String → Bool

pub data PinResult : Type 0 where
  pinned : (resolved_addresses : List String) (selected : DnsAddress) → PinResult
  prohibited :
      (resolved_addresses : List String) (address : String) (category : Category) → PinResult
  dns_not_found : (resolved_addresses : List String) → PinResult
  dns_malformed : (resolved_addresses : List String) → PinResult

-- What the code calls: `isIP`, with 0 for no literal, and `classifyHost`.
pub record Platform : Type 0 where
  pub is_ip : String → ℕ
  pub classify_host : String → Option Category
  pub rules : List SupplementalRule

abbrev pub is_family : ℕ → Bool
is_family f = f == 4 || f == 6

-- The loop over the rules.
abbrev pub first_rule : String → ℕ → List SupplementalRule → Option Category
first_rule address family [] = none
first_rule address family (r ∷ rs) =
    let rest = first_rule address family rs in
    if (r.family == family) && r.check address then some r.category else rest

abbrev pub decided : String → ℕ → Option Category → TransportAddressDecision
decided address family none = record {
  address = address;
  family = some family;
  allowed = true;
  category = none;
}
decided address family (some c) = record {
  address = address;
  family = some family;
  allowed = false;
  category = some c;
}

abbrev pub or_rule : Option Category → Option Category → Option Category
or_rule none rule = rule
or_rule (some c) rule = some c

-- `Number.isFinite(ttlSeconds) && ttlSeconds >= 0`
abbrev pub is_ttl : Number → Bool
is_ttl (finite (pos n)) = true
is_ttl _ = false

abbrev pub category_or : Option Category → Category → Category
category_or none c = c
category_or (some d) c = d

module _ (p : Platform) where
  unfoldable pub classify_transport_address : String → TransportAddressDecision
  classify_transport_address address =
      let family = p.is_ip address in
      if not (is_family family)
      then record { address = address; family = none; allowed = false; category = some invalid }
      else decided address family
          (or_rule (p.classify_host address) (first_rule address family p.rules))

  abbrev pub is_malformed : DnsAddress → Bool
  is_malformed answer =
      let family = p.is_ip answer.address in
      not (family == answer.family) || not (is_family family) || not (is_ttl answer.ttl_seconds)

  -- The loop over the answers, from one of them on; `first` is the answer at 0.
  unfoldable pub select : List String → DnsAddress → List DnsAddress → PinResult
  unfolding classify_transport_address
  select resolved first [] = pinned resolved first
  select resolved first (a ∷ as') =
      let rest = select resolved first as' in
      let decision = classify_transport_address a.address in
      if not decision.allowed
      then prohibited resolved a.address (category_or decision.category invalid)
      else rest

  unfoldable pub pin_addresses : List DnsAddress → PinResult
  unfolding select
  pin_addresses [] = dns_not_found []
  pin_addresses (a ∷ as') =
      let resolved = map (λ x. x.address) (a ∷ as') in
      if any is_malformed (a ∷ as') then dns_malformed resolved else select resolved a (a ∷ as')

  -- The resolver's rejection propagates as none.
  unfoldable pub resolve_host_addresses :
      (String → Option (List DnsAddress)) → String → Option (List DnsAddress)
  resolve_host_addresses resolve hostname =
      let family = p.is_ip hostname in
      if is_family family
      then some (record { address = hostname; family = family; ttl_seconds = finite (pos 0) } ∷ [])
      else resolve hostname

  abbrev pub at_answers : Option (List DnsAddress) → Option PinResult
  at_answers none = none
  at_answers (some answers) = some (pin_addresses answers)

  unfoldable pub pin_destination : (String → Option (List DnsAddress)) → String → Option PinResult
  unfolding resolve_host_addresses
  pin_destination resolve hostname = at_answers (resolve_host_addresses resolve hostname)
