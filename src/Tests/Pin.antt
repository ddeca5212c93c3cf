-- ===== src/Tests/Pin.antt =====
-- Runs of packages/online/src/transport/pin.ts.
use linklint.Common.{
  All, List, Option, String, [], finite, if◌then◌else◌, map, none, pos, refl, some, str_eq, ◌||◌,
  ◌∷◌, ◌≡◌,
}
use linklint.Pin.{
  DnsAddress, Platform, classify_transport_address, documentation, ip_private, pin_addresses,
  pin_destination, pinned, prohibited, resolve_host_addresses, select,
}
use linklint.Pin.Answers.{IsRefused, IsSafe, pin_destination-IsSafe}

-- A platform on which three texts are literals.
abbrev platform : Platform
platform = record {
  is_ip = λ s. if str_eq s "8.8.8.8" || str_eq s "10.0.0.1" || str_eq s "192.0.2.1" then 4 else 0;
  classify_host = λ s. if str_eq s "10.0.0.1" then some ip_private else none;
  rules = record { category = documentation; family = 4; check = λ s. str_eq s "192.0.2.1" } ∷ [];
}

abbrev answer : String → DnsAddress
answer address = record { address = address; family = 4; ttl_seconds = finite (pos 60) }

abbrev resolver : String → Option (List DnsAddress)
resolver hostname =
    if str_eq hostname "rebind.example"
    then some (answer "8.8.8.8" ∷ answer "10.0.0.1" ∷ [])
    else if str_eq hostname "dns.example"
    then some (answer "8.8.8.8" ∷ [])
    else none

pin_run :
    (pin_destination platform resolver "192.0.2.1"
      ≡ some (prohibited ("192.0.2.1" ∷ []) "192.0.2.1" documentation))
    × (pin_destination platform resolver "unknown.example" ≡ none)
    × (pin_destination platform resolver "dns.example"
        ≡ some (pinned ("8.8.8.8" ∷ []) (answer "8.8.8.8")))
unfolding pin_destination pin_addresses select classify_transport_address resolve_host_addresses
pin_run = (refl, refl, refl)

pin_destination-IsSafe_example :
    (rest : List DnsAddress) × (resolve_host_addresses platform resolver "dns.example"
      ≡ some (answer "8.8.8.8" ∷ rest))
    × ("8.8.8.8" ∷ [] ≡ map (λ a. a.address) (answer "8.8.8.8" ∷ rest))
    × All (IsSafe platform) (answer "8.8.8.8" ∷ rest)
pin_destination-IsSafe_example =
    pin_destination-IsSafe platform resolver "dns.example" ("8.8.8.8" ∷ []) (answer "8.8.8.8")
      pin_run.2

first_IsSafe : IsSafe platform (answer "8.8.8.8")
unfolding classify_transport_address
first_IsSafe = (refl, refl)

second_IsRefused : IsRefused platform (answer "10.0.0.1")
unfolding classify_transport_address
second_IsRefused = (refl, refl)

resolved :
    resolve_host_addresses platform resolver "rebind.example"
    ≡ some (answer "8.8.8.8" ∷ answer "10.0.0.1" ∷ [])
unfolding resolve_host_addresses
resolved = refl
