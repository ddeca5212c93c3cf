-- ===== src/Transport/Decoding.antt =====
-- packages/online/src/transport/decompression.ts: the codings of a body undone, within a limit. The
-- decoders of zlib are the platform's.
use mathlib.Core.List.{reverse}
use linklint.Common.{
  List, Option, Text, [], codes, if◌then◌else◌, is_empty, length, ltb, none, some, split, text_eq,
  trim, ℕ, ◌++◌, ◌==◌, ◌||◌, ◌∷◌,
}

pub data Coding : Type 0 where
  gzip deflate brotli : Coding

-- What zlib answers under `maxOutputLength`.
pub data Inflated : Type 0 where
  inflated : List ℕ → Inflated
  over_limit not_valid : Inflated

pub data Decoded : Type 0 where
  decoded : List ℕ → Decoded
  limit_error unsupported_error content_error : Decoded

abbrev pub Headers : Type 0
Headers = List (Text × List Text)

module _ (lower : Text → Text) where
  abbrev declared : List Text → List Text
  declared [] = []
  declared (part ∷ parts) =
      let value = lower (trim part) in
      let rest = declared parts in if is_empty value then rest else value ∷ rest

  abbrev declared_values : List Text → List Text
  declared_values [] = []
  declared_values (value ∷ values) = declared (split b',' value) ++ declared_values values

  unfoldable pub content_encodings : Headers → List Text
  unfolding split
  content_encodings [] = []
  content_encodings ((name, values) ∷ rest) =
      let more = content_encodings rest in
      if text_eq (lower name) (codes "content-encoding")
      then declared_values values ++ more
      else more

abbrev pub coding_of : Text → Option Coding
coding_of encoding =
    if text_eq encoding (codes "gzip") || text_eq encoding (codes "x-gzip")
    then some gzip
    else if text_eq encoding (codes "deflate")
    then some deflate
    else if text_eq encoding (codes "br")
    then some brotli
    else none

abbrev pub within : ℕ → List ℕ → Decoded
within limit body = if ltb limit (length body) then limit_error else decoded body

module _ (zlib : Coding → List ℕ → ℕ → Inflated) where
  abbrev pub of_inflated : ℕ → Inflated → Decoded
  of_inflated limit (inflated body) = within limit body
  of_inflated limit over_limit = limit_error
  of_inflated limit not_valid = content_error

  abbrev pub undo_one : ℕ → Option Coding → List ℕ → Decoded
  undo_one limit none body = unsupported_error
  undo_one limit (some coding) body = of_inflated limit (zlib coding body limit)

  abbrev pub then_undo : Decoded → (List ℕ → Decoded) → Decoded
  then_undo (decoded body) next = next body
  then_undo limit_error next = limit_error
  then_undo unsupported_error next = unsupported_error
  then_undo content_error next = content_error

  -- The loop over the codings, the last that was applied first.
  unfoldable pub undo : ℕ → List Text → List ℕ → Decoded
  undo limit [] body = within limit body
  undo limit (encoding ∷ rest) body =
      let skipped = undo limit rest body in
      let undone = then_undo (undo_one limit (coding_of encoding) body) (undo limit rest) in
      if text_eq encoding (codes "identity") then skipped else undone

  unfoldable pub decode_response_body : (Text → Text) → List ℕ → Headers → ℕ → Decoded
  unfolding content_encodings undo
  decode_response_body lower encoded headers max_output_bytes =
      if is_empty encoded
      then decoded []
      else if max_output_bytes == 0
      then limit_error
      else undo max_output_bytes (reverse (content_encodings lower headers)) encoded
