-- ===== src/Der.antt =====
-- packages/online/src/transport/tls-der.ts: the reader of DER values in a certificate's bytes. A
-- `DerParseError` is none; its message is left out.
pub mod Bounds
use linklint.Common.{
  Bool, List, Option, [], false, get_or, if◌then◌else◌, leb, length, ltb, none, some, suc, true,
  zero, ℕ, ◌%◌, ◌*◌, ◌+◌, ◌/◌, ◌==◌, ◌∷◌,
}

abbrev pub Bytes : Type 0
Bytes = List ℕ

pub record Tlv : Type 0 where
  pub tag : ℕ
  pub content_start : ℕ
  pub content_end : ℕ

-- The loop over the bytes of a long length.
unfoldable pub read_length : Bytes → (count cursor value : ℕ) → ℕ
read_length bytes zero cursor value = value
read_length bytes (suc count) cursor value =
    read_length bytes count (cursor + 1) (value * 256 + get_or bytes cursor 0)

abbrev pub at_content : Bytes → (tag cursor content_length : ℕ) → Option Tlv
at_content bytes tag cursor content_length =
    if ltb (length bytes) (cursor + content_length)
    then none
    else some (record { tag = tag; content_start = cursor; content_end = cursor + content_length })

-- A first byte with its high bit counts the bytes of the length.
abbrev pub at_long : Bytes → (tag cursor count : ℕ) → Option Tlv
at_long bytes tag cursor count =
    if count == 0
    then none
    else if ltb 4 count
    then none
    else if ltb (length bytes) (cursor + count)
    then none
    else at_content bytes tag (cursor + count) (read_length bytes count cursor 0)

unfoldable pub read_tlv : Bytes → ℕ → Option Tlv
unfolding read_length
read_tlv bytes at =
    let tag = get_or bytes at 0 in
    let first = get_or bytes (at + 1) 0 in
    if leb (length bytes) (at + 1)
    then none
    else if first / 128 % 2 == 0
    then at_content bytes tag (at + 2) first
    else at_long bytes tag (at + 2) (first % 128)

abbrev pub cons_tlv : Tlv → Option (List Tlv) → Option (List Tlv)
cons_tlv t none = none
cons_tlv t (some ts) = some (t ∷ ts)

-- A round, where `pos < end`: the value that is yielded, before those after it.
abbrev pub at_round : Bool → Option Tlv → (ℕ → Option (List Tlv)) → Option (List Tlv)
at_round false tlv rest = some []
at_round true none rest = none
at_round true (some t) rest = cons_tlv t (rest t.content_end)

-- The generator, run to its end; each round is one of the fuel.
unfoldable pub children_of : (fuel : ℕ) → Bytes → (at end : ℕ) → Option (List Tlv)
unfolding read_tlv
children_of zero bytes at end = none
children_of (suc fuel) bytes at end =
    at_round (ltb at end) (read_tlv bytes at) (λ next. children_of fuel bytes next end)
