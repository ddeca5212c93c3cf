-- ===== src/Url/Syntax.antt =====
-- packages/core/src/parse/syntax.ts: the scheme prefix, the schemes that are known, and positions.
pub mod Cuts
pub mod Scheme
use linklint.Common.{
  Bool, List, Option, Text, [], any, codes, contains, drop_while, false, if◌then◌else◌, is_digit,
  leb, none, not, some, suc, text_eq, true, ℕ, ◌&&◌, ◌==◌, ◌||◌, ◌∷◌,
}

-- The position of the first unit that passes the test; none for -1.
abbrev bump_index : Option ℕ → Option ℕ
bump_index none = none
bump_index (some i) = some (suc i)

pub index_where : (ℕ → Bool) → Text → Option ℕ
index_where p [] = none
index_where p (c ∷ cs) = let rest = index_where p cs in if p c then some 0 else bump_index rest

-- `s.indexOf(c)` and `firstIndexOf(s, chars)`.
unfoldable pub index_of : ℕ → Text → Option ℕ
unfolding index_where
index_of c s = index_where (λ d. d == c) s

unfoldable pub first_index_of : Text → Text → Option ℕ
unfolding index_where
first_index_of s chars = index_where (λ d. contains d chars) s

-- `^[a-zA-Z]` and `[a-zA-Z0-9+.\-]`.
abbrev pub is_ascii_letter : ℕ → Bool
is_ascii_letter c = (leb b'a' c && leb c b'z') || (leb b'A' c && leb c b'Z')

abbrev pub is_scheme_unit : ℕ → Bool
is_scheme_unit c = is_ascii_letter c || is_digit c || c == b'+' || c == b'.' || c == b'-'

abbrev with_unit : ℕ → Option (Text × Text) → Option (Text × Text)
with_unit c none = none
with_unit c (some (name, rest)) = some (c ∷ name, rest)

-- The group of the match, and what follows the colon.
pub scheme_tail : Text → Option (Text × Text)
scheme_tail [] = none
scheme_tail (c ∷ cs) =
    let rest = with_unit c (scheme_tail cs) in
    if c == b':' then some ([], cs) else if is_scheme_unit c then rest else none

unfoldable pub scheme_match : Text → Option (Text × Text)
unfolding scheme_tail
scheme_match [] = none
scheme_match (c ∷ cs) = if is_ascii_letter c then with_unit c (scheme_tail cs) else none

abbrev pub known_schemes : List Text
known_schemes =
    codes "http"
    ∷ codes "https"
    ∷ codes "ftp"
    ∷ codes "ftps"
    ∷ codes "ws"
    ∷ codes "wss"
    ∷ codes "file"
    ∷ codes "mailto"
    ∷ codes "tel"
    ∷ codes "about"
    ∷ codes "chrome"
    ∷ codes "view-source"
    ∷ codes "javascript"
    ∷ codes "data"
    ∷ codes "vbscript"
    ∷ codes "blob"
    ∷ []

abbrev pub opaque_schemes : List Text
opaque_schemes =
    codes "javascript"
    ∷ codes "data"
    ∷ codes "vbscript"
    ∷ codes "blob"
    ∷ codes "mailto"
    ∷ codes "tel"
    ∷ codes "about"
    ∷ []

unfoldable pub is_known_scheme : Text → Bool
is_known_scheme candidate = any (text_eq candidate) known_schemes

unfoldable pub is_opaque_scheme : Text → Bool
is_opaque_scheme candidate = any (text_eq candidate) opaque_schemes

-- `/^\d+([/?#]|$)/`, after a first digit.
abbrev ends_port : Text → Bool
ends_port [] = true
ends_port (c ∷ cs) = c == b'/' || c == b'?' || c == b'#'

unfoldable pub starts_port : Text → Bool
starts_port [] = false
starts_port (c ∷ cs) = is_digit c && ends_port (drop_while is_digit cs)

unfoldable pub looks_like_host_port : Text → Text → Bool
unfolding is_known_scheme starts_port
looks_like_host_port candidate after =
    (contains b'.' candidate || starts_port after) && not (is_known_scheme candidate)
