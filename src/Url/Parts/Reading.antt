-- ===== src/Url/Parts/Reading.antt =====
-- The parts of raw-parts.ts are those of the authority as written.
use mathlib.Core.Option.{some_inj}
use mathlib.Core.List.{append_assoc, append-nil}
use mathlib.Core.Path.{subst}
use linklint.Common.{
  ==_iff, Bool, Bool-cases, Option, Text, [], ap, arith, codes, false, if◌then◌else◌, inl, inr,
  is_empty, is_none, ltb, none, refl, some, sym, text_eq_iff, true, ℕ, ◌&&◌, ◌++◌, ◌==◌, ◌∙◌, ◌∷◌,
  ◌≡◌, ◌≤◌, ◌⊎◌,
}
use linklint.Ipv4.{parse_int}
use linklint.Url.Parts.{
  HostPort, SplitParts, authority_parts, bracketed_host, cut_first, cut_last,
  has_parseable_authority_introducer, host_accepted, host_parts, host_port, hostport_of,
  is_port_digits, max_port, plain_host, port_part, split_raw_parts, to_port, userinfo_of, with_host,
  with_port,
}
use linklint.Url.Parts.Cuts.{FirstCut, LastCut, cut_first-FirstCut, cut_last-LastCut}
use linklint.Url.Chars.{Classes}
use linklint.Url.Tokens.{RawUrlTokens, scheme_is}

-- The number that the digits write, at most 65535.
abbrev pub IsPort : ℕ → Text → Type 0
IsPort port digits =
    (is_port_digits digits ≡ true) × (parse_int 10 0 digits ≡ port) × (port ≤ 65535)

abbrev PortText : Option ℕ → Text → Type 0
PortText none s = s ≡ []
PortText (some port) s = (digits : Text) × (s ≡ b':' ∷ digits) × IsPort port digits

abbrev host_text : HostPort → Text
host_text h = if h.bracketed then b'[' ∷ (h.raw_host ++ codes "]") else h.raw_host

-- The host and the port, as they stand in the text.
abbrev Reads : Text → HostPort → Type 0
Reads s h = (port : Text) × (s ≡ host_text h ++ port) × PortText h.port port

abbrev ReadsAs : Text → Option HostPort → Type 0
ReadsAs s none = Unit
ReadsAs s (some h) = Reads s h

to_port-IsPort :
    (digits : Text) (port : ℕ)
    → is_port_digits digits ≡ true
    → to_port digits ≡ some port
    → IsPort port digits
unfolding to_port
to_port-IsPort digits port h e = elim (Bool-cases (ltb max_port (parse_int 10 0 digits))) [
  | inl large ↦ let f = rw large at e in cc
  | inr small ↦
      let f : some (parse_int 10 0 digits) ≡ some port = rw small at e in
      let same : parse_int 10 0 digits ≡ port = some_inj.0 f in (h, same, ground arith)
]

with_port-ReadsAs :
    (s raw_host digits : Text) (bracketed : Bool) (m : Option ℕ)
    → s ≡ (if bracketed then b'[' ∷ (raw_host ++ codes "]") else raw_host) ++ (b':' ∷ digits)
    → is_port_digits digits ≡ true
    → to_port digits ≡ m
    → ReadsAs s (with_port raw_host bracketed m)
with_port-ReadsAs s raw_host digits bracketed none e h k = tt
with_port-ReadsAs s raw_host digits bracketed (some port) e h k =
    (b':' ∷ digits, e, (digits, refl, to_port-IsPort digits port h k))

plain_host-ReadsAs :
    (s : Text) (m : Option (Text × Text)) → LastCut b':' s m → ReadsAs s (plain_host s m)
plain_host-ReadsAs s none h = ([], sym (append-nil s), refl)
plain_host-ReadsAs s (some (left, digits)) h = elim (Bool-cases (is_port_digits digits)) [
  | inl port ↦ rw port (with_port-ReadsAs s left digits false (to_port digits) h.0 port refl)
  | inr other ↦ rw other ([], sym (append-nil s), refl)
]

port_part-ReadsAs :
    (s raw_host after : Text)
    → s ≡ b'[' ∷ (raw_host ++ (b']' ∷ after))
    → ReadsAs s (port_part raw_host after)
port_part-ReadsAs s raw_host [] e = ([], e ∙ sym (append-nil _), refl)
port_part-ReadsAs s raw_host (c ∷ p) e = elim (Bool-cases (c == b':')) [
  | inr other ↦ rw other tt
  | inl colon ↦ elim (Bool-cases (is_port_digits p)) [
    | inr bad ↦ rw (colon, bad) tt
    | inl digits ↦
        rw (colon, digits)
          (with_port-ReadsAs s raw_host p true (to_port p) (e ∙ closed raw_host c p colon) digits
            refl)
  ]
]
  where
    closed :
        (raw_host : Text) (c : ℕ) (p : Text)
        → (c == b':') ≡ true
        → b'[' ∷ (raw_host ++ (b']' ∷ c ∷ p)) ≡ (b'[' ∷ (raw_host ++ codes "]")) ++ (b':' ∷ p)
    closed raw_host c p h =
        ap (λ t. b'[' ∷ t)
          (ap (λ (d : ℕ). raw_host ++ (b']' ∷ d ∷ p)) ((==_iff c b':').0 h)
            ∙ sym (append_assoc raw_host (codes "]") (b':' ∷ p)))

bracketed_host-ReadsAs :
    (cs : Text) (m : Option (Text × Text))
    → FirstCut b']' cs m
    → ReadsAs (b'[' ∷ cs) (bracketed_host m)
bracketed_host-ReadsAs cs none h = tt
bracketed_host-ReadsAs cs (some (raw_host, after)) h =
    port_part-ReadsAs (b'[' ∷ cs) raw_host after (ap (λ t. b'[' ∷ t) h)

host_port-ReadsAs : (s : Text) → ReadsAs s (host_port s)
unfolding host_port
host_port-ReadsAs [] = ([], refl, refl)
host_port-ReadsAs (c ∷ cs) = elim (Bool-cases (c == b'[')) [
  | inl open_bracket ↦ rw open_bracket (
      rw ((==_iff c b'[').0 open_bracket)
        (bracketed_host-ReadsAs cs (cut_first b']' cs) (cut_first-FirstCut b']' cs)))
  | inr other ↦
      rw other
        (plain_host-ReadsAs (c ∷ cs) (cut_last b':' (c ∷ cs)) (cut_last-LastCut b':' (c ∷ cs)))
]

abbrev pub userinfo_text : Option Text → Text
userinfo_text none = []
userinfo_text (some userinfo) = userinfo ++ codes "@"

-- What is left of the authority, and what was taken off.
userinfo-append :
    (authority : Text) (m : Option (Text × Text))
    → LastCut b'@' authority m
    → authority ≡ userinfo_text (userinfo_of m) ++ hostport_of authority m
userinfo-append authority none h = refl
userinfo-append authority (some (left, right)) h = h.0 ∙ sym (append_assoc left (codes "@") right)

abbrev pub host_port_of : SplitParts → HostPort
host_port_of s = record {
  raw_host = s.parts.raw_host;
  port = s.parts.port;
  bracketed = s.bracketed;
}

-- The userinfo, the host in its brackets, and the port, in the order of the authority; the rest of
-- the parts is that of the tokens, and the host is one that is accepted.
pub record IsReading (classes : Classes) (t : RawUrlTokens) (s : SplitParts) : Type 0 where
  pub port_text : Text
  pub authority :
      t.authority ≡ userinfo_text s.parts.userinfo ++ (host_text (host_port_of s) ++ port_text)
  pub port : PortText s.parts.port port_text
  pub accepted : host_accepted classes (host_port_of s) ≡ true
  pub scheme : s.parts.scheme ≡ t.scheme
  pub path : s.parts.path ≡ t.path
  pub query : s.parts.query ≡ t.query
  pub fragment : s.parts.fragment ≡ t.fragment

-- Of the introducers, `//` or none with a scheme, and none at all without.
abbrev pub IsIntroduced : RawUrlTokens → Type 0
IsIntroduced t =
    ((t.scheme ≡ none) × (t.protocol_relative ≡ false))
    ⊎ ((is_none t.scheme ≡ false)
        × ((t.authority_introducer ≡ []) ⊎ (t.authority_introducer ≡ codes "//")))

pub and_false : (b : Bool) → (b && false) ≡ false
and_false true = refl
and_false false = refl

is_empty→nil : (s : Text) → is_empty s ≡ true → s ≡ []
is_empty→nil [] h = refl
is_empty→nil (c ∷ cs) h = cc

is_none→none : (m : Option Text) → is_none m ≡ true → m ≡ none
is_none→none none h = refl
is_none→none (some s) h = cc

introduced : (t : RawUrlTokens) → has_parseable_authority_introducer t ≡ true → IsIntroduced t
unfolding has_parseable_authority_introducer
introduced t h = elim (Bool-cases (is_none t.scheme)) [
  | inl bare ↦ inl (is_none→none t.scheme bare, ground arith)
  | inr given ↦ elim (Bool-cases (is_empty t.authority_introducer)) [
    | inl nothing ↦ inr (given, inl (is_empty→nil t.authority_introducer nothing))
    | inr other ↦
        inr (given, inr ((text_eq_iff t.authority_introducer (codes "//")).0 (ground arith)))
  ]
]

host_parts-IsReading :
    (classes : Classes) (t : RawUrlTokens) (m : Option (Text × Text)) (h : HostPort)
    → LastCut b'@' t.authority m
    → Reads (hostport_of t.authority m) h
    → host_accepted classes h ≡ true
    → IsReading classes t (host_parts t (userinfo_of m) h)
host_parts-IsReading classes t m h cut reads good = record {
  port_text = reads.0;
  authority =
      userinfo-append t.authority m cut ∙ ap (λ r. userinfo_text (userinfo_of m) ++ r) reads.1;
  port = reads.2;
  accepted = good;
  scheme = refl;
  path = refl;
  query = refl;
  fragment = refl;
}

with_host-IsReading :
    (classes : Classes) (t : RawUrlTokens) (m : Option (Text × Text)) (h : Option HostPort)
    (s : SplitParts)
    → LastCut b'@' t.authority m
    → ReadsAs (hostport_of t.authority m) h
    → with_host classes t (userinfo_of m) h ≡ some s
    → IsReading classes t s
with_host-IsReading classes t m none s cut reads e = cc
with_host-IsReading classes t m (some h) s cut reads e =
    elim (Bool-cases (host_accepted classes h)) [
      | inr bad ↦ let f = rw bad at e in cc
      | inl good ↦
          let f : some (host_parts t (userinfo_of m) h) ≡ some s = rw good at e in
          subst (IsReading classes t) (some_inj.0 f)
            (host_parts-IsReading classes t m h cut reads good)
    ]

pub authority_branch :
    (classes : Classes) (t : RawUrlTokens) (s : SplitParts)
    → t.opaque ≡ false
    → (scheme_is (codes "file") t.scheme && is_empty t.authority) ≡ false
    → split_raw_parts classes t ≡ some s
    → IsIntroduced t × IsReading classes t s
unfolding split_raw_parts
authority_branch classes t s clear remote e =
    elim (Bool-cases (has_parseable_authority_introducer t)) [
      | inr bad ↦ let f = rw (clear, remote, bad) at e in cc
      | inl good ↦
          let f : authority_parts classes t ≡ some s = rw (clear, remote, good) at e in
          let cut = cut_last b'@' t.authority in
          (
            introduced t good,
            with_host-IsReading classes t cut (host_port (hostport_of t.authority cut)) s
                (cut_last-LastCut b'@' t.authority)
                (host_port-ReadsAs (hostport_of t.authority cut)) f,
          )
    ]

-- Where there is an authority that parses: userinfo, `@`, the host in its brackets if it has some, and
-- `:` with the port's digits are the authority, nothing is lost or changed. The port is the value of
-- its digits and at most 65535, and the host passes the test of its kind.
pub split_raw_parts-IsReading :
    (classes : Classes) (t : RawUrlTokens) (s : SplitParts)
    → t.opaque ≡ false
    → is_empty t.authority ≡ false
    → split_raw_parts classes t ≡ some s
    → IsIntroduced t × IsReading classes t s
split_raw_parts-IsReading classes t s clear authority e =
    authority_branch classes t s clear
      (rw authority (and_false (scheme_is (codes "file") t.scheme))) e
