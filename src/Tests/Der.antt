-- ===== src/Tests/Der.antt =====
-- Runs of packages/online/src/transport/tls-der.ts.
use linklint.Common.{[], none, refl, some, ◌∷◌, ◌≡◌}
use linklint.Der.{Bytes, Tlv, children_of, read_length, read_tlv}
use linklint.Der.Bounds.{Tiles, children_of-Tiles}

-- A SEQUENCE of an object identifier and an octet string.
abbrev sequence : Bytes
sequence = 0x30 ∷ 0x06 ∷ 0x06 ∷ 0x01 ∷ 0x2a ∷ 0x04 ∷ 0x01 ∷ 0xff ∷ []

abbrev oid : Tlv
oid = record { tag = 6; content_start = 4; content_end = 5 }

abbrev octets : Tlv
octets = record { tag = 4; content_start = 7; content_end = 8 }

read_run :
    (read_tlv sequence 0 ≡ some (record { tag = 0x30; content_start = 2; content_end = 8 }))
    × (children_of 9 sequence 2 8 ≡ some (oid ∷ octets ∷ []))
    × (read_tlv (0x30 ∷ 0x80 ∷ 0 ∷ 0 ∷ []) 0 ≡ none)
    × (read_tlv (0x30 ∷ 0x81 ∷ 0x01 ∷ 7 ∷ []) 0
        ≡ some (record { tag = 0x30; content_start = 3; content_end = 4 }))
unfolding read_tlv read_length children_of
read_run = (refl, refl, refl, refl)

-- A child may reach past the content of the value that it stands in.
child_overruns : children_of 9 sequence 2 4 ≡ some (oid ∷ [])
unfolding read_tlv read_length children_of
child_overruns = refl

children_of-Tiles_example : Tiles sequence 2 8 (oid ∷ octets ∷ [])
children_of-Tiles_example = children_of-Tiles 9 sequence 2 8 (oid ∷ octets ∷ []) read_run.1
