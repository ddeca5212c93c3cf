-- ===== src/Transport/Fetch/Reading.antt =====
-- What is read of a body of safe-transport.ts, and what is decoded of it, is within the budgets of
-- the session.
use mathlib.Core.List.{reverse}
use linklint.Common.{
  Bool-cases, List, Text, [], arith, codes, inl, inr, is_empty, length, length-append, ltb, text_eq,
  ℕ, ◌++◌, ◌+◌, ◌==◌, ◌∷◌, ◌≤◌,
}
use linklint.Transport.{
  BodyEnd, BodyRead, SafeSession, body_done, body_hangs, body_threw, chunk, joined, not_bytes,
  read_encoded_body, read_failed, window_closed,
}
use linklint.Transport.Policy.{TransportPolicy}
use linklint.Transport.Decoding.{
  Coding, Decoded, Headers, Inflated, coding_of, content_encodings, content_error,
  decode_response_body, decoded, limit_error, then_undo, undo, undo_one, unsupported_error, within,
}

pub record IsWithin (policy : TransportPolicy) (session : SafeSession) : Type 0 where
  pub hops : session.hops ≤ policy.max_hops
  pub encoded : session.encoded_bytes ≤ policy.max_response_bytes
  pub decompressed : session.decompressed_bytes ≤ policy.max_decompressed_bytes

pub read_encoded_body-le :
    (policy : TransportPolicy) (encoded window : ℕ) (body : List ℕ) (reads : List BodyRead)
    → encoded ≤ policy.max_response_bytes
    → (read_encoded_body policy encoded window body reads).0 ≤ policy.max_response_bytes
unfolding read_encoded_body
read_encoded_body-le policy encoded window body [] h = h
read_encoded_body-le policy encoded window body (window_closed ∷ reads) h =
    ground (arith, read_encoded_body-le policy encoded 0 body reads)
read_encoded_body-le policy encoded window body (body_done ∷ reads) h = h
read_encoded_body-le policy encoded window body (not_bytes ∷ reads) h = h
read_encoded_body-le policy encoded window body (read_failed f ∷ reads) h = h
read_encoded_body-le policy encoded window body (chunk bytes ∷ reads) h =
    elim (Bool-cases (ltb policy.max_response_bytes (encoded + length bytes))) [
      | inl large ↦ rw large (omega arith)
      | inr small ↦ rw small (
          read_encoded_body-le policy (encoded + length bytes) (window + length bytes)
            (body ++ bytes) reads (ground arith))
    ]

-- The bytes of the body as far as it is read to its end.
abbrev pub body_length : BodyEnd → ℕ
body_length (joined body) = length body
body_length (body_threw thrown) = 0
body_length body_hangs = 0

-- What is read is charged.
pub read_encoded_body-charges :
    (policy : TransportPolicy) (before encoded window : ℕ) (body : List ℕ) (reads : List BodyRead)
    → encoded ≤ policy.max_response_bytes
    → before + length body ≤ encoded
    → before + body_length (read_encoded_body policy encoded window body reads).1
      ≤ (read_encoded_body policy encoded window body reads).0
unfolding read_encoded_body
read_encoded_body-charges policy before encoded window body [] h k = omega arith
read_encoded_body-charges policy before encoded window body (window_closed ∷ reads) h k =
    elim (Bool-cases (ltb window policy.min_throughput_bytes)) [
      | inl slow ↦ rw slow (omega arith)
      | inr fast ↦ rw fast (read_encoded_body-charges policy before encoded 0 body reads h k)
    ]
read_encoded_body-charges policy before encoded window body (body_done ∷ reads) h k = k
read_encoded_body-charges policy before encoded window body (not_bytes ∷ reads) h k = omega arith
read_encoded_body-charges policy before encoded window body (read_failed f ∷ reads) h k =
    omega arith
read_encoded_body-charges policy before encoded window body (chunk bytes ∷ reads) h k =
    elim (Bool-cases (ltb policy.max_response_bytes (encoded + length bytes))) [
      | inl large ↦ rw large (omega arith)
      | inr small ↦ rw small (
          read_encoded_body-charges policy before (encoded + length bytes) (window + length bytes)
            (body ++ bytes) reads (ground arith) (omega (arith, k, length-append body bytes)))
    ]

-- What is decoded is within the limit.
abbrev pub IsBounded : ℕ → Decoded → Type 0
IsBounded limit (decoded body) = length body ≤ limit
IsBounded limit _ = Unit

within-IsBounded : (limit : ℕ) (body : List ℕ) → IsBounded limit (within limit body)
within-IsBounded limit body = elim (Bool-cases (ltb limit (length body))) [
  | inl large ↦ rw large tt
  | inr small ↦ rw small (ground arith)
]

module _ (zlib : Coding → List ℕ → ℕ → Inflated) where
  then_undo-IsBounded :
      (limit : ℕ) (d : Decoded) (next : List ℕ → Decoded)
      → ((body : List ℕ) → IsBounded limit (next body))
      → IsBounded limit (then_undo zlib d next)
  then_undo-IsBounded limit (decoded body) next h = h body
  then_undo-IsBounded limit limit_error next h = tt
  then_undo-IsBounded limit unsupported_error next h = tt
  then_undo-IsBounded limit content_error next h = tt

  undo-IsBounded :
      (limit : ℕ) (encodings : List Text) (body : List ℕ)
      → IsBounded limit (undo zlib limit encodings body)
  unfolding undo
  undo-IsBounded limit [] body = within-IsBounded limit body
  undo-IsBounded limit (encoding ∷ rest) body =
      elim (Bool-cases (text_eq encoding (codes "identity"))) [
        | inl same ↦ rw same (undo-IsBounded limit rest body)
        | inr other ↦ rw other (
            then_undo-IsBounded limit (undo_one zlib limit (coding_of encoding) body)
              (undo zlib limit rest) (undo-IsBounded limit rest))
      ]

  pub decode_response_body-IsBounded :
      (lower : Text → Text) (encoded : List ℕ) (headers : Headers) (limit : ℕ)
      → IsBounded limit (decode_response_body zlib lower encoded headers limit)
  unfolding decode_response_body
  decode_response_body-IsBounded lower encoded headers limit =
      elim (Bool-cases (is_empty encoded)) [
        | inl nothing ↦ rw nothing (omega arith)
        | inr something ↦ elim (Bool-cases (limit == 0)) [
          | inl spent ↦ rw (something, spent) tt
          | inr left ↦
              rw (something, left)
                (undo-IsBounded limit (reverse (content_encodings lower headers)) encoded)
        ]
      ]
