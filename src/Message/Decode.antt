-- ===== src/Message/Decode.antt =====
-- `Decode` of message.go.
use bfcp.Base.{
  ℕ, zero, suc, ◌-◌, ◌*◌, ◌/◌, ◌==◌, ltb, if◌then◌else◌, not, ◌&&◌, List, [], ◌∷◌, ◌++◌, length,
  take, drop, bit_and,
}
use bfcp.Base.Bytes.{uint16, uint32}
use bfcp.Base.Result.{Result, ok, err, ◌>>=◌}
use bfcp.Types.Protocol
use bfcp.Message.{Attribute, Message, parsed}
use bfcp.Message.Grouped.{padding}

-- `stuck` is no Go value: the loop ran out of fuel.
pub data DecodeError : Type 0 where
  message_too_short : ℕ → DecodeError
  unsupported_version : ℕ → DecodeError
  payload_too_short : (got expected : ℕ) → DecodeError
  incomplete_header : DecodeError
  invalid_length : ℕ → DecodeError
  value_exceeds_message : (need have : ℕ) → DecodeError
  stuck : DecodeError

-- The list is `data[offset:endOffset]`; behind the padding of the last attribute it is empty, as
-- `offset < endOffset` is false there. Each round takes two octets at least. Where `int(attrLength) - 2`
-- would be negative, and `l - 2` stops at 0, the first guard returns.
unfoldable pub decode_attrs :
    (fuel : ℕ) → List ℕ → List Attribute → Result DecodeError (List Attribute)
decode_attrs fuel [] attrs = ok attrs
decode_attrs zero (t ∷ rest) attrs = err stuck
decode_attrs (suc fuel) (t ∷ []) attrs = err incomplete_header
decode_attrs (suc fuel) (t ∷ l ∷ body) attrs =
    let attr = parsed (t / 2) (l - 2) (take (l - 2) body) in
    let rest = decode_attrs fuel (drop (padding l) (drop (l - 2) body)) (attrs ++ (attr ∷ [])) in
    if ltb l 2
    then err (invalid_length l)
    else if ltb (length body) (l - 2)
    then err (value_exceeds_message (l - 2) (length body))
    else rest

-- The message of the header alone.
abbrev pub header_message : (b0 p l c t u : ℕ) → Message
header_message b0 p l c t u = record {
  version = bit_and (b0 / 32) 0x07;
  reserved = bit_and b0 0x1f;
  primitive = p;
  payload_length = l;
  conference_id = c;
  transaction_id = t;
  user_id = u;
  attributes = [];
}

unfoldable pub decode_payload : Message → List ℕ → Result DecodeError Message
unfolding decode_attrs
decode_payload m rest =
    let expected = m.payload_length * 4 in
    if not (m.version == Protocol.version_rfc4582) && not (m.version == Protocol.version_rfc8855)
    then err (unsupported_version m.version)
    else if ltb (length rest) expected
    then err (payload_too_short (length rest) expected)
    else (do
      attrs ← decode_attrs expected (take expected rest) []
      ok (record m { attributes = attrs }))

unfoldable pub decode : List ℕ → Result DecodeError Message
unfolding decode_payload
decode (b0 ∷ p ∷ l1 ∷ l0 ∷ c3 ∷ c2 ∷ c1 ∷ c0 ∷ t1 ∷ t0 ∷ u1 ∷ u0 ∷ rest) =
    decode_payload
      (header_message b0 p (uint16 l1 l0) (uint32 c3 c2 c1 c0) (uint16 t1 t0) (uint16 u1 u0)) rest
decode bytes = err (message_too_short (length bytes))
