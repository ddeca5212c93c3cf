-- ===== src/Pin/Answers.antt =====
-- The answers that a pinned destination rests on (packages/online/src/transport/pin.ts).
use linklint.Common.{
  All, Bool-cases, List, Option, String, [], any, ap, arith, false, inl, inr, map, none, some, sym,
  true, ◌++◌, ◌∷◌, ◌≡◌,
}
use linklint.Pin.{
  DnsAddress, Platform, at_answers, category_or, classify_transport_address, invalid, is_malformed,
  pin_addresses, pin_destination, pinned, prohibited, resolve_host_addresses, select,
}

module _ (p : Platform) where
  -- An answer to which a connection may go: well formed, and refused by no rule.
  abbrev pub IsSafe : DnsAddress → Type 0
  IsSafe a = ((classify_transport_address p a.address).allowed ≡ true) × (is_malformed p a ≡ false)

  -- A well-formed answer that a rule refuses.
  abbrev pub IsRefused : DnsAddress → Type 0
  IsRefused a =
      ((classify_transport_address p a.address).allowed ≡ false) × (is_malformed p a ≡ false)

  any-All :
      (answers : List DnsAddress)
      → any (is_malformed p) answers ≡ false
      → All (λ a. is_malformed p a ≡ false) answers
  any-All [] h = tt
  any-All (a ∷ as') h = (ground arith, any-All as' (ground arith))

  select-IsSafe :
      (resolved : List String) (first : DnsAddress) (answers : List DnsAddress) (rs : List String)
      (d : DnsAddress)
      → All (λ a. is_malformed p a ≡ false) answers
      → select p resolved first answers ≡ pinned rs d
      → (d ≡ first) × (rs ≡ resolved) × All IsSafe answers
  unfolding select
  select-IsSafe resolved first [] rs d w h = (ground arith, ground arith, tt)
  select-IsSafe resolved first (a ∷ as') rs d w h =
      elim (Bool-cases (classify_transport_address p a.address).allowed) [
        | inl allowed ↦
            let (e, f, rest) = select-IsSafe resolved first as' rs d w.1 (ground arith) in
            (e, f, ((allowed, w.0), rest))
        | inr refused ↦ absurd (ground arith)
      ]

  pin_addresses-IsSafe :
      (answers : List DnsAddress) (rs : List String) (d : DnsAddress)
      → pin_addresses p answers ≡ pinned rs d
      → (rest : List DnsAddress) × (answers ≡ d ∷ rest)
        × (rs ≡ map (λ a. a.address) (d ∷ rest))
        × All IsSafe (d ∷ rest)
  unfolding pin_addresses
  pin_addresses-IsSafe [] rs d h = absurd (ground arith)
  pin_addresses-IsSafe (a ∷ as') rs d h = elim (Bool-cases (any (is_malformed p) (a ∷ as'))) [
    | inl bad ↦ absurd (ground arith)
    | inr good ↦
        let resolved = map (λ x. x.address) (a ∷ as') in
        let (e, f, safe) =
          select-IsSafe resolved a (a ∷ as') rs d (any-All (a ∷ as') good) (ground arith) in
        (as', ap (λ x. x ∷ as') (sym e), rw e f, rw e safe)
  ]

  at_answers-IsSafe :
      (o : Option (List DnsAddress)) (rs : List String) (d : DnsAddress)
      → at_answers p o ≡ some (pinned rs d)
      → (rest : List DnsAddress) × (o ≡ some (d ∷ rest))
        × (rs ≡ map (λ a. a.address) (d ∷ rest))
        × All IsSafe (d ∷ rest)
  at_answers-IsSafe none rs d h = absurd (ground arith)
  at_answers-IsSafe (some answers) rs d h =
      let (rest, e, f, safe) = pin_addresses-IsSafe answers rs d (ground arith) in
      (rest, ap some e, f, safe)

  -- A destination is pinned only to the first of the answers that the resolver gave for this call,
  -- or of the literal itself, and only where every one of them is a well-formed address that
  -- neither the core's classification nor a supplemental range refuses.
  pub pin_destination-IsSafe :
      (resolve : String → Option (List DnsAddress)) (hostname : String) (rs : List String)
      (d : DnsAddress)
      → pin_destination p resolve hostname ≡ some (pinned rs d)
      → (rest : List DnsAddress) × (resolve_host_addresses p resolve hostname ≡ some (d ∷ rest))
        × (rs ≡ map (λ a. a.address) (d ∷ rest))
        × All IsSafe (d ∷ rest)
  unfolding pin_destination
  pin_destination-IsSafe resolve hostname rs d h =
      at_answers-IsSafe (resolve_host_addresses p resolve hostname) rs d h

  select-refused :
      (resolved : List String) (first a : DnsAddress) (before after : List DnsAddress)
      → All IsSafe before
      → IsRefused a
      → select p resolved first (before ++ (a ∷ after))
        ≡ prohibited resolved a.address
            (category_or (classify_transport_address p a.address).category invalid)
  unfolding select
  select-refused resolved first a [] after h r = rw (r.0)
  select-refused resolved first a (b ∷ bs) after h r =
      rw (h.0.0) (select-refused resolved first a bs after (h.1) r)

  pin_addresses-refused :
      (a : DnsAddress) (before after : List DnsAddress)
      → any (is_malformed p) (before ++ (a ∷ after)) ≡ false
      → All IsSafe before
      → IsRefused a
      → pin_addresses p (before ++ (a ∷ after))
        ≡ prohibited
            (map (λ x. x.address) (before ++ (a ∷ after)))
            a.address
            (category_or (classify_transport_address p a.address).category invalid)
  unfolding pin_addresses
  pin_addresses-refused a [] after w h r =
      rw w (select-refused (map (λ x. x.address) (a ∷ after)) a a [] after h r)
  pin_addresses-refused a (b ∷ bs) after w h r =
      rw w (select-refused (map (λ x. x.address) (b ∷ (bs ++ (a ∷ after)))) b a (b ∷ bs) after h r)

  -- Of well-formed answers, the first that is refused stops the request, wherever it stands and
  -- whatever comes after it, and the outcome names that answer and the range that refuses it.
  pub pin_destination-refused :
      (resolve : String → Option (List DnsAddress)) (hostname : String) (a : DnsAddress)
      (before after : List DnsAddress)
      → resolve_host_addresses p resolve hostname ≡ some (before ++ (a ∷ after))
      → any (is_malformed p) (before ++ (a ∷ after)) ≡ false
      → All IsSafe before
      → IsRefused a
      → pin_destination p resolve hostname
        ≡ some (
            prohibited
              (map (λ x. x.address) (before ++ (a ∷ after)))
              a.address
              (category_or (classify_transport_address p a.address).category invalid))
  unfolding pin_destination
  pin_destination-refused resolve hostname a before after e w h r =
      rw e (ap some (pin_addresses-refused a before after w h r))
