-- ===== src/Transport/RequestHeaders/Sent.antt =====
-- What headers.ts lets out: every header of a request has one of four origins.
use linklint.Common.{
  All, Bool, Bool-cases, List, Option, Text, [], any, codes, false, if_cases, if◌then◌else◌, inl,
  inr, none, not, refl, some, sym, text_eq, text_eq_iff, true, ◌&&◌, ◌∷◌, ◌≡◌, ◌⊎◌,
}
use linklint.Transport.RequestHeaders.{
  destination_headers, forward, forwarded_request_headers, has_break, set_header, with_referer,
}

both_true : (b c : Bool) → (b && not c) ≡ true → (b ≡ true) × (c ≡ false)
both_true true true h = cc
both_true true false h = (refl, refl)
both_true false c h = cc

module _ (lower : Text → Text) where
  -- The caller gave this value under a name that is spelled so in lower case.
  abbrev pub Offered : Text → Text → List (Text × Option Text) → Type 0
  Offered name value [] = ⊥
  Offered name value ((given, none) ∷ rest) = Offered name value rest
  Offered name value ((given, some v) ∷ rest) =
      ((lower given ≡ name) × (v ≡ value)) ⊎ Offered name value rest

  -- Fixed by the boundary, the checked referer, or a forwarded header of the caller with no break.
  abbrev pub IsSent : Text → List (Text × Option Text) → Option Text → Text × Text → Type 0
  IsSent host_text input referer (name, value) =
      ((name ≡ codes "host") × (value ≡ host_text))
      ⊎ (((name ≡ codes "accept-encoding") × (value ≡ codes "gzip, deflate, br"))
          ⊎ (((name ≡ codes "referer") × (referer ≡ some value))
              ⊎ ((any (text_eq name) forwarded_request_headers ≡ true)
                  × (has_break value ≡ false)
                  × Offered name value input)))

  module _ (host_text : Text) (input : List (Text × Option Text)) (referer : Option Text) where
    abbrev Sent : Text × Text → Type 0
    Sent = IsSent host_text input referer

    set_header-All :
        (name value : Text) (headers : List (Text × Text))
        → Sent (name, value)
        → All Sent headers
        → All Sent (set_header name value headers)
    unfolding set_header
    set_header-All name value [] h k = (h, tt)
    set_header-All name value ((key, old) ∷ rest) h k = elim (Bool-cases (text_eq key name)) [
      | inl same ↦ rw same (rw ((text_eq_iff key name).0 same) h, k.1)
      | inr other ↦ rw other (k.0, set_header-All name value rest h k.1)
    ]

    forward-All :
        (given : List (Text × Option Text)) (headers : List (Text × Text))
        → ((name value : Text) → Offered name value given → Offered name value input)
        → All Sent headers
        → All Sent (forward lower given headers)
    unfolding forward
    forward-All [] headers h k = k
    forward-All ((name, none) ∷ rest) headers h k = forward-All rest headers h k
    forward-All ((name, some value) ∷ rest) headers h k =
        forward-All rest
          (if any (text_eq (lower name)) forwarded_request_headers && not (has_break value)
            then set_header (lower name) value headers
            else headers)
          (λ n v o. h n v (inr o))
          (if_cases (All Sent)
            (any (text_eq (lower name)) forwarded_request_headers && not (has_break value))
            (λ passes.
              let parts = both_true _ _ passes in
              set_header-All (lower name) value headers
                (inr (inr (inr (parts.0, parts.1, h (lower name) value (inl (refl, refl)))))) k)
            (λ dropped. k))

    with_referer-All :
        (headers : List (Text × Text)) (m : Option Text)
        → m ≡ referer
        → All Sent headers
        → All Sent (with_referer lower m headers)
    with_referer-All headers none e k = k
    with_referer-All headers (some value) e k =
        set_header-All (codes "referer") value headers (inr (inr (inl (refl, sym e)))) k

-- Every header that is sent is the URL's host, the fixed `accept-encoding`, the referer that was
-- checked, or one of the caller's under a forwarded name with a value that holds no NUL, CR or LF.
pub destination_headers-IsSent :
    (lower : Text → Text) (host_text : Text) (input : List (Text × Option Text))
    (referer : Option Text)
    → All (IsSent lower host_text input referer) (destination_headers lower host_text input referer)
unfolding destination_headers
destination_headers-IsSent lower host_text input referer =
    with_referer-All lower host_text input referer _ referer refl (
      forward-All lower host_text input referer input _ (λ n v o. o)
        (inl (refl, refl), (inr (inl (refl, refl)), tt)))
