-- ===== src/Message/Tlv.antt =====
-- The builders of pre-encoded attributes in message.go. `make` gives a zeroed buffer, `copy` is
-- `copy_at`, and `byte(x)` is `u8 x`.
use bfcp.Base.{
  ℕ, ◌+◌, ◌-◌, ◌*◌, ◌/◌, ◌%◌, if◌then◌else◌, Bool, true, false, List, [], ◌∷◌, ◌++◌, length,
  replicate, copy_at, bit_or, bit_and,
}
use bfcp.Base.Bytes.{u8, put_uint16, put_uint32}
use bfcp.Types.AttributeType
use bfcp.Types.Primitive
use bfcp.Message.{Attribute, Message}

-- `attrType << 1`, with the M bit set if `mandatory`.
abbrev pub tlv_header : (attr_type : ℕ) → Bool → ℕ
tlv_header t mandatory = if mandatory then bit_or (t * 2 % 256) 1 else t * 2 % 256

-- The zeros up to the next multiple of four octets.
abbrev pub pad_to_4 : ℕ → ℕ
pad_to_4 l = (4 - l % 4) % 4

unfoldable pub build_simple_attr : (attr_type : ℕ) → Bool → (value : List ℕ) → List ℕ
build_simple_attr t mandatory v =
    let l = 2 + length v in
    let total = l + pad_to_4 l in
    copy_at 2 v (tlv_header t mandatory ∷ u8 l ∷ replicate (total - 2) 0)

abbrev pub sum_lengths : List (List ℕ) → ℕ
sum_lengths [] = 0
sum_lengths (c ∷ cs) = length c + sum_lengths cs

-- The loop that copies the children, from offset `off` on.
abbrev pub copy_children : (off : ℕ) → List (List ℕ) → List ℕ → List ℕ
copy_children off [] out = out
copy_children off (c ∷ cs) out = copy_children (off + length c) cs (copy_at off c out)

unfoldable pub build_grouped_attr : (attr_type : ℕ) → Bool → List (List ℕ) → List ℕ
build_grouped_attr t mandatory children =
    let size = 2 + sum_lengths children in
    let total = size + pad_to_4 size in
    copy_children 2 children (tlv_header t mandatory ∷ u8 size ∷ replicate (total - 2) 0)

unfoldable pub build_grouped_attr_with_header_id :
    (attr_type : ℕ) → Bool → (header_id : ℕ) → List (List ℕ) → List ℕ
build_grouped_attr_with_header_id t mandatory id children =
    let size = 4 + sum_lengths children in
    let total = size + pad_to_4 size in
    copy_children 4 children (
      tlv_header t mandatory
      ∷ u8 size
      ∷ u8 (id / 256)
      ∷ bit_and id 0xff % 256
      ∷ replicate (total - 4) 0)

-- FLOOR-REQUEST-INFORMATION with the overall status and the status of one floor, built inside out.
unfoldable pub floor_request_info_attr : (request_id status floor_id : ℕ) → List ℕ
unfolding build_simple_attr build_grouped_attr_with_header_id
floor_request_info_attr rid status fid =
    let request_status =
      build_simple_attr AttributeType.request_status false (u8 status ∷ 0 ∷ []) in
    let overall =
      build_grouped_attr_with_header_id AttributeType.overall_request_status false rid
        (request_status ∷ []) in
    let floor =
      build_grouped_attr_with_header_id AttributeType.floor_request_status false fid
        (request_status ∷ []) in
    build_grouped_attr_with_header_id AttributeType.floor_request_info true rid
      (overall ∷ floor ∷ [])

-- The attribute that `AddFloorRequestInformationRFC4582` appends.
unfoldable pub info_attribute : (request_id status floor_id : ℕ) → Attribute
unfolding floor_request_info_attr
info_attribute rid status fid =
    let attr = floor_request_info_attr rid status fid in
    record {
      type = AttributeType.floor_request_info;
      length = u8 (length attr);
      value = attr;
      raw_tlv = true;
    }

-- `AddFloorRequestInformationRFC4582`.
unfoldable pub add_floor_request_information : (request_id status floor_id : ℕ) → Message → Message
unfolding info_attribute
add_floor_request_information rid status fid m = record m {
  attributes = m.attributes ++ (info_attribute rid status fid ∷ []);
}

-- `BuildFloorStatusMessage`: FLOOR-ID and FLOOR-REQUEST-INFORMATION behind a common header.
unfoldable pub build_floor_status_message :
    (version conf_id tx_id user_id floor_id request_id status : ℕ) → List ℕ
unfolding build_simple_attr floor_request_info_attr
build_floor_status_message version conf tx user fid rid status =
    let floor_attr = build_simple_attr AttributeType.floor_id true (put_uint16 fid) in
    let payload = floor_attr ++ floor_request_info_attr rid status fid in
    (version * 32 % 256 ∷ Primitive.floor_status ∷ put_uint16 (length payload / 4 % 65536)
      ++ (put_uint32 conf ++ (put_uint16 tx ++ (put_uint16 user ++ payload))))
