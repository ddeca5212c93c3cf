-- ===== src/Url/Tokens/Regions.antt =====
-- What the regions of raw-tokens.ts never hold.
use linklint.Common.{
  All, Bool, Bool-cases, Option, Text, [], arith, codes, contains, drop, inl, inr, is_none, length,
  none, not, refl, some, suc, take, true, zero, ℕ, ◌&&◌, ◌==◌, ◌∷◌, ◌≡◌, ◌⊎◌,
}
use linklint.Url.Syntax.{first_index_of, index_of, index_where}
use linklint.Url.Syntax.Cuts.{Lacks, absent, index_where-Cut, present}
use linklint.Url.Tokens.{
  Head, Hostless, RawUrlTokens, authority_tokens, before, file_tokens, hostless_file_body, is_slash,
  leading, leading_authority_introducer, past, read_scheme, remainder, scheme_is, scheme_is_opaque,
  split_path_query_fragment, tokenize_raw_url, tokens_after, two_slashes,
}

abbrev pub is_delimiter : ℕ → Bool
is_delimiter c = contains c (codes "/?#")

abbrev pub OptionalLacks : (ℕ → Bool) → Option Text → Type 0
OptionalLacks p none = Unit
OptionalLacks p (some s) = Lacks p s

-- The body's delimiters stand between its regions.
abbrev pub IsBody : Text → Option Text → Type 0
IsBody path query =
    Lacks (λ c. c == b'?') path × Lacks (λ c. c == b'#') path × OptionalLacks (λ c. c == b'#') query

abbrev pub IsSplit : RawUrlTokens → Type 0
IsSplit t =
    Lacks is_delimiter t.authority
    × IsBody t.path t.query
    × All (λ c. is_slash c ≡ true) t.authority_introducer
    × (t.opaque ≡ true → (t.authority ≡ []) × (t.authority_introducer ≡ []))

Lacks-take : (p : ℕ → Bool) (n : ℕ) (s : Text) → Lacks p s → Lacks p (take n s)
Lacks-take p zero s h = tt
Lacks-take p (suc n) [] h = tt
Lacks-take p (suc n) (c ∷ cs) h = (h.0, Lacks-take p n cs h.1)

Lacks-drop : (p : ℕ → Bool) (n : ℕ) (s : Text) → Lacks p s → Lacks p (drop n s)
Lacks-drop p zero s h = h
Lacks-drop p (suc n) [] h = tt
Lacks-drop p (suc n) (c ∷ cs) h = Lacks-drop p n cs h.1

Lacks-before : (p : ℕ → Bool) (m : Option ℕ) (s : Text) → Lacks p s → Lacks p (before m s)
Lacks-before p none s h = h
Lacks-before p (some i) s h = Lacks-take p i s h

Lacks-past : (p : ℕ → Bool) (m : Option ℕ) (s : Text) → Lacks p s → OptionalLacks p (past m s)
Lacks-past p none s h = tt
Lacks-past p (some i) s h = Lacks-drop p (suc i) s h

before-Lacks : (p : ℕ → Bool) (s : Text) → Lacks p (before (index_where p s) s)
before-Lacks p s = elim (index_where-Cut p s) [
  | absent e lacks ↦ rw e lacks
  | present i d rest e lacks hit here after whole ↦ rw e lacks
]

split_path_query_fragment-IsBody :
    (s : Text) → IsBody (split_path_query_fragment s).path (split_path_query_fragment s).query
unfolding split_path_query_fragment index_of
split_path_query_fragment-IsBody s =
    let work = before (index_of b'#' s) s in
    let clear : Lacks (λ c. c == b'#') work = before-Lacks (λ c. c == b'#') s in
    (
      before-Lacks (λ c. c == b'?') work,
      Lacks-before (λ c. c == b'#') (index_of b'?' work) work clear,
      Lacks-past (λ c. c == b'#') (index_of b'?' work) work clear,
    )

All-leading : (p : ℕ → Bool) (s : Text) → All (λ c. p c ≡ true) (leading p s)
All-leading p [] = tt
All-leading p (c ∷ cs) = elim (Bool-cases (p c)) [
  | inl hit ↦ rw hit (hit, All-leading p cs)
  | inr other ↦ rw other tt
]

introducer_slashes :
    (rest : Text) (scheme : Option Text) (relative : Bool)
    → All (λ c. is_slash c ≡ true) (leading_authority_introducer rest scheme relative)
unfolding leading_authority_introducer
introducer_slashes rest scheme relative = elim (Bool-cases (is_none scheme && not relative)) [
  | inl bare ↦ rw bare tt
  | inr led ↦ elim (Bool-cases (two_slashes rest)) [
    | inl slashes ↦ rw (led, slashes) (All-leading is_slash rest)
    | inr other ↦ rw (led, other) tt
  ]
]

take_two-slashes : (s : Text) → two_slashes s ≡ true → All (λ c. is_slash c ≡ true) (take 2 s)
take_two-slashes [] h = tt
take_two-slashes (a ∷ []) h = cc
take_two-slashes (a ∷ b ∷ rest) h = ground arith

hostless_introducer :
    (rest : Text) (h : Hostless)
    → hostless_file_body rest ≡ some h
    → (h.authority_introducer ≡ [])
      ⊎ ((two_slashes rest ≡ true) × (h.authority_introducer ≡ take 2 rest))
unfolding hostless_file_body
hostless_introducer rest h e = ground arith

hostless_slashes :
    (rest : Text) (h : Hostless)
    → hostless_file_body rest ≡ some h
    → All (λ c. is_slash c ≡ true) h.authority_introducer
hostless_slashes rest h e = elim (hostless_introducer rest h e) [
  | inl bare ↦ rw bare tt
  | inr two ↦ rw two.1 (take_two-slashes rest two.0)
]

authority_tokens-IsSplit :
    (prepared : Text) (head : Head) (relative : Bool)
    → IsSplit (authority_tokens prepared head relative)
unfolding authority_tokens first_index_of
authority_tokens-IsSplit prepared head relative =
    let introducer = leading_authority_introducer head.rest head.scheme relative in
    let region = drop (length introducer) head.rest in
    (
      before-Lacks is_delimiter region,
      split_path_query_fragment-IsBody (remainder (first_index_of region (codes "/?#")) region),
      introducer_slashes head.rest head.scheme relative,
      λ h. cc,
    )

file_tokens-IsSplit :
    (prepared : Text) (head : Head) (relative : Bool) (m : Option Hostless)
    → hostless_file_body head.rest ≡ m
    → IsSplit (file_tokens prepared head relative m)
file_tokens-IsSplit prepared head relative none e = authority_tokens-IsSplit prepared head relative
file_tokens-IsSplit prepared head relative (some h) e =
    (tt, split_path_query_fragment-IsBody h.path, hostless_slashes head.rest h e, λ k. cc)

-- Whatever the text: the authority has no `/`, `?` or `#`, the path no `?` or `#`, the query no `#`;
-- only slashes and backslashes introduce an authority, and an opaque URL has none.
pub tokenize_raw_url-IsSplit : (prepared : Text) → IsSplit (tokenize_raw_url prepared)
unfolding tokenize_raw_url tokens_after
tokenize_raw_url-IsSplit prepared =
    let head = read_scheme prepared in
    elim (Bool-cases (scheme_is_opaque head.scheme && not (two_slashes head.rest))) [
      | inl opaque ↦
          rw opaque (tt, split_path_query_fragment-IsBody head.rest, tt, λ k. (refl, refl))
      | inr other ↦ elim (Bool-cases (scheme_is (codes "file") head.scheme)) [
        | inl file ↦ rw (other, file) (file_tokens-IsSplit prepared head _ _ refl)
        | inr none_of ↦ rw (other, none_of) (authority_tokens-IsSplit prepared head _)
      ]
    ]
