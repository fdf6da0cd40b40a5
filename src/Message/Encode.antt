-- ===== src/Message/Encode.antt =====
-- `Message.Encode` of message.go: a zeroed buffer that is written from front to back.
use bfcp.Base.{
  ℕ, ◌+◌, ◌*◌, ◌/◌, ◌%◌, ◌==◌, not, if◌then◌else◌, Option, none, some, List, [], ◌∷◌, ◌++◌, length,
  replicate, copy_at, bit_or, bit_and,
}
use bfcp.Base.Bytes.{u8, u16, put_uint16, put_uint32}
use bfcp.Types.Protocol
use bfcp.Message.{Attribute, Message}
use bfcp.Message.Grouped.{padding}

-- What an attribute adds to `attrLength`.
abbrev pub attr_size : Attribute → ℕ
attr_size a = if a.raw_tlv then length a.value else 2 + a.length + padding (2 + a.length)

abbrev pub attr_length : List Attribute → ℕ
attr_length [] = 0
attr_length (a ∷ attrs) = attr_size a + attr_length attrs

abbrev pub header_byte : Message → ℕ
header_byte m = bit_or (m.version * 32 % 256) (bit_and m.reserved 0x1f)

-- The twelve octets of the common header.
abbrev pub header_bytes : Message → List ℕ
header_bytes m =
    header_byte m ∷ m.primitive % 256 ∷ put_uint16 m.payload_length
    ++ (put_uint32 m.conference_id ++ (put_uint16 m.transaction_id ++ put_uint16 m.user_id))

-- One round of the loop over the attributes: the offset and the buffer behind it. `copy` writes
-- the whole value, whatever `Length` says, as far as the buffer goes.
unfoldable pub encode_attr : Attribute → ℕ → List ℕ → ℕ × List ℕ
encode_attr a offset buf =
    if a.raw_tlv then (offset + length a.value, copy_at offset a.value buf) else (
      offset + 2 + a.length + padding (2 + a.length),
      copy_at (offset + 2) a.value
          (copy_at offset (bit_or (a.type * 2 % 256) 0x01 ∷ u8 (a.length + 2) ∷ []) buf),
    )

unfoldable pub encode_attrs : List Attribute → ℕ → List ℕ → List ℕ
unfolding encode_attr
encode_attrs [] offset buf = buf
encode_attrs (a ∷ attrs) offset buf =
    let (offset', buf') = encode_attr a offset buf in encode_attrs attrs offset' buf'

-- The message with its payload length set, and the octets; `none` is the alignment error.
unfoldable pub encode : Message → Option (Message × List ℕ)
unfolding encode_attrs
encode m =
    let n = attr_length m.attributes in
    let m' = record m { payload_length = u16 (n / 4) } in
    if not (n % 4 == 0)
    then none
    else some (
      m',
      encode_attrs m'.attributes Protocol.common_header_length (header_bytes m' ++ replicate n 0),
    )
