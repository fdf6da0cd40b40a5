-- ===== src/Message/RoundTrip.antt =====
-- What `Decode` makes of what `Encode` wrote.
use bfcp.Base.{
  ℕ, zero, suc, ◌+◌, ◌-◌, ◌*◌, ◌/◌, ◌%◌, ◌≤◌, ◌<◌, ltb, ◌==◌, not, ◌&&◌, le→ltb, false, some, ◌≡◌,
  sym, ap, ◌∙◌, ◌⊎◌, List, [], ◌∷◌, ◌++◌, map, All, append_assoc, append-nil, length, take, drop,
  replicate, length-append, length-replicate, take-append, drop-append, bit_or, bit_and, arith,
}
use bfcp.Base.Bytes.{
  u8, IsWord, uint16, uint16-put_uint16, uint32-put_uint32, bit_and_seven, bit_and_0x1f,
  bit_or_pack,
}
use bfcp.Base.Result.{ok}
use bfcp.Message.{Attribute, Message, parsed}
use bfcp.Message.Grouped.{padding}
use bfcp.Message.Encode.{attr_length, encode, header_bytes}
use bfcp.Message.Decode.{decode_attrs, decode, decode_payload}
use bfcp.Message.Wire.{
  tlv, received, attr_wire, attrs_wire, IsEncodable, prepared, wire, encode-wire, encode_length,
}

drop-padding : (rest : List ℕ) (k : ℕ) → drop k (replicate k 0 ++ rest) ≡ rest
drop-padding rest k =
    ap (λ i. drop i (replicate k 0 ++ rest)) (sym (length-replicate k 0))
    ∙ drop-append (replicate k 0) rest

decode_attrs_step :
    (t : ℕ) (v rest : List ℕ) (fuel : ℕ) (acc : List Attribute)
    → t < 128
    → length v ≤ 253
    → decode_attrs (suc fuel) (tlv t v ++ rest) acc
      ≡ decode_attrs fuel rest (acc ++ (parsed t (length v) v ∷ []))
unfolding decode_attrs
decode_attrs_step t v rest fuel acc ht hv =
    let k = padding (2 + length v) in
    let body = (v ++ replicate k 0) ++ rest in
    let n : length v + 2 - 2 ≡ length v = omega arith in
    let half : (t * 2 + 1) / 2 ≡ t = omega arith in
    let l : length v + 2 ≡ 2 + length v = omega arith in
    let assoc : body ≡ v ++ (replicate k 0 ++ rest) = append_assoc v (replicate k 0) rest in
    let enough : ltb (length body) (length v) ≡ false =
      le→ltb _ _
        (omega (arith, length-append (v ++ replicate k 0) rest, length-append v (replicate k 0))) in
    let long : ltb (length v + 2) 2 ≡ false = le→ltb _ _ (omega arith) in
    let value : take (length v) body ≡ v = ap (take (length v)) assoc ∙ take-append v _ in
    let left : drop (length v) body ≡ replicate k 0 ++ rest =
      ap (drop (length v)) assoc ∙ drop-append v _ in
    rw (long, n, enough, value, left, half, l)
      (ap (λ r. decode_attrs fuel r (acc ++ (parsed t (length v) v ∷ []))) (drop-padding rest k))

received-parsed :
    (a : Attribute)
    → IsEncodable a
    → parsed a.type (length (received a).value) (received a).value ≡ received a
received-parsed a h =
    let fits : length (received a).value ≤ 253 = h.value_fits in
    let n : u8 (length (received a).value) ≡ (received a).length =
      (omega arith) ∙ sym h.length_exact in
    λ i. record {
      type = sym h.same_type i;
      length = n i;
      value = (received a).value;
      raw_tlv = sym h.not_raw i;
    }

decode_attrs-attr_wire :
    (a : Attribute) (rest : List ℕ) (fuel : ℕ) (acc : List Attribute)
    → IsEncodable a
    → decode_attrs (suc fuel) (attr_wire a ++ rest) acc
      ≡ decode_attrs fuel rest (acc ++ (received a ∷ []))
unfolding attr_wire
decode_attrs-attr_wire a rest fuel acc h =
    decode_attrs_step a.type (received a).value rest fuel acc h.type_fits h.value_fits
    ∙ ap (λ (b : Attribute). decode_attrs fuel rest (acc ++ (b ∷ []))) (received-parsed a h)

attr_wire_nonempty : (a : Attribute) → 0 < length (attr_wire a)
unfolding attr_wire
attr_wire_nonempty a = omega arith

decode_attrs-wire :
    (attrs : List Attribute) (fuel : ℕ) (acc : List Attribute)
    → All IsEncodable attrs
    → length (attrs_wire attrs) ≤ fuel
    → decode_attrs fuel (attrs_wire attrs) acc ≡ ok (acc ++ map received attrs)
decode_attrs-wire [] fuel acc h n = unfold decode_attrs in ap ok (sym (append-nil acc))
decode_attrs-wire (a ∷ attrs) zero acc h n =
    absurd (omega (arith, attr_wire_nonempty a, length-append (attr_wire a) (attrs_wire attrs)))
decode_attrs-wire (a ∷ attrs) (suc fuel) acc h n =
    let fits : length (attrs_wire attrs) ≤ fuel =
      omega (arith, attr_wire_nonempty a, length-append (attr_wire a) (attrs_wire attrs)) in
    decode_attrs-attr_wire a (attrs_wire attrs) fuel acc h.0
    ∙ decode_attrs-wire attrs fuel (acc ++ (received a ∷ [])) h.1 fits
    ∙ ap ok (append_assoc acc (received a ∷ []) (map received attrs))

abbrev IsVersion : ℕ → Type 0
IsVersion v = (v ≡ 1) ⊎ (v ≡ 2)

decode_payload-wire :
    (m : Message) (attrs : List Attribute) (rest : List ℕ)
    → IsVersion m.version
    → m.payload_length * 4 ≡ length (attrs_wire attrs)
    → All IsEncodable attrs
    → decode_payload m (attrs_wire attrs ++ rest)
      ≡ ok (record m { attributes = map received attrs })
unfolding decode_payload
decode_payload-wire m attrs rest v n h =
    let known : (not (m.version == 1) && not (m.version == 2)) ≡ false = ground arith in
    let enough : ltb (length (attrs_wire attrs ++ rest)) (length (attrs_wire attrs)) ≡ false =
      le→ltb _ _ (omega (arith, length-append (attrs_wire attrs) rest)) in
    rw (known, n, enough, take-append)
      (rw (decode_attrs-wire attrs (length (attrs_wire attrs)) [] h (omega arith)))

-- A message that fits the format: version 1 or 2, every field within its width, every attribute
-- within its octets, and at most 65,535 words of attributes.
pub record IsWellFormed (m : Message) : Type 0 where
  pub version_known : (m.version ≡ 1) ⊎ (m.version ≡ 2)
  pub reserved_fits : m.reserved < 32
  pub primitive_fits : m.primitive < 256
  pub conference_fits : m.conference_id < 4294967296
  pub transaction_fits : IsWord m.transaction_id
  pub user_fits : IsWord m.user_id
  pub encodable : All IsEncodable m.attributes
  pub payload_fits : attr_length m.attributes < 262144

header-read :
    (m : Message)
    → IsWellFormed m
    → (bit_and (bit_or (m.version * 32 % 256) (bit_and m.reserved 0x1f) / 32) 7 ≡ m.version)
      × (bit_and (bit_or (m.version * 32 % 256) (bit_and m.reserved 0x1f)) 0x1f ≡ m.reserved)
header-read m h =
    let v : m.version < 8 = ground arith in
    let r : m.reserved < 32 = h.reserved_fits in
    rw (bit_or_pack m.version m.reserved v r) (
      bit_and_seven ((m.version * 32 + m.reserved) / 32) (omega arith) ∙ (omega arith),
      bit_and_0x1f (m.version * 32 + m.reserved) (omega arith) ∙ (omega arith),
    )

header_decoded :
    (m : Message) (rest : List ℕ)
    → IsWellFormed m
    → decode (header_bytes (prepared m) ++ rest)
      ≡ decode_payload (record (prepared m) { attributes = [] }) rest
unfolding decode
header_decoded m rest h =
    let (version, reserved) = header-read m h in
    let p : m.primitive % 256 ≡ m.primitive = omega arith in
    let n = (prepared m).payload_length in
    let l : uint16 (n / 256 % 256) (n % 256) ≡ n = uint16-put_uint16 n (omega arith) in
    let t = uint16-put_uint16 m.transaction_id h.transaction_fits in
    let u = uint16-put_uint16 m.user_id h.user_fits in
    let c = uint32-put_uint32 m.conference_id h.conference_fits in
    ap (λ (m0 : Message). decode_payload m0 rest)
      (λ i. record {
        version = version i;
        reserved = reserved i;
        primitive = p i;
        payload_length = l i;
        conference_id = c i;
        transaction_id = t i;
        user_id = u i;
        attributes = [];
      })

-- On a well-formed message `Encode` succeeds, and `Decode` of its octets, with anything behind
-- them, gives back the message: every header field, the payload length that `Encode` computed,
-- and every attribute in order, a pre-encoded one as its receiver reads it.
pub decode-encode :
    (m : Message) (rest : List ℕ)
    → IsWellFormed m
    → (encode m ≡ some (prepared m, wire m))
      × (decode (wire m ++ rest)
          ≡ ok (record (prepared m) { attributes = map received m.attributes }))
decode-encode m rest h =
    let m0 : Message = record (prepared m) { attributes = [] } in
    let size : (prepared m).payload_length * 4 ≡ length (attrs_wire m.attributes) = omega (
      arith,
      encode_length m h.encodable h.payload_fits,
      length-append (header_bytes (prepared m)) (attrs_wire m.attributes),
    ) in
    (
      encode-wire m h.encodable,
      ap decode (append_assoc (header_bytes (prepared m)) (attrs_wire m.attributes) rest)
          ∙ header_decoded m (attrs_wire m.attributes ++ rest) h
          ∙ decode_payload-wire m0 m.attributes rest h.version_known size h.encodable,
    )
