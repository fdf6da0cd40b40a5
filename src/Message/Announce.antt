-- ===== src/Message/Announce.antt =====
-- `BuildFloorStatusMessage` of message.go writes the octets of a message by hand. They are those
-- that `Encode` makes of the message with the same attributes.
use bfcp.Base.{ℕ, false, ◌*◌, ◌%◌, bit_or, ◌<◌, ◌≡◌, ◌∙◌, some, refl, [], ◌∷◌, ◌⊎◌, arith}
use bfcp.Base.Bytes.{IsByte, IsWord, put_uint16, bit_or_pack}
use bfcp.Types.Primitive
use bfcp.Message.{Attribute, Message, add_floor_id}
use bfcp.Message.Tlv.{
  build_simple_attr, build_grouped_attr_with_header_id, floor_request_info_attr, info_attribute,
  add_floor_request_information, build_floor_status_message,
}
use bfcp.Message.Encode.{encode, encode_attrs, encode_attr}
use bfcp.Message.Wire.{prepared}
use bfcp.Message.Status.{received_info}

-- FloorStatus with FLOOR-ID and FLOOR-REQUEST-INFORMATION.
abbrev pub floor_status_message :
    (version conf_id tx_id user_id floor_id request_id status : ℕ) → Message
floor_status_message version conf tx user fid rid status =
    add_floor_request_information rid status fid (
      add_floor_id fid (record {
        version = version;
        reserved = 0;
        primitive = Primitive.floor_status;
        payload_length = 0;
        conference_id = conf;
        transaction_id = tx;
        user_id = user;
        attributes = [];
      }))

-- For a version of three bits, the octets that `BuildFloorStatusMessage` writes are those of
-- `Encode` on the FloorStatus with FLOOR-ID and FLOOR-REQUEST-INFORMATION.
pub encode-floor_status_message :
    (version conf tx user fid rid status : ℕ)
    → version < 8
    → encode (floor_status_message version conf tx user fid rid status)
      ≡ some (
        prepared (floor_status_message version conf tx user fid rid status),
        build_floor_status_message version conf tx user fid rid status,
      )
unfolding encode encode_attrs encode_attr build_floor_status_message build_simple_attr
    floor_request_info_attr build_grouped_attr_with_header_id info_attribute
    add_floor_request_information add_floor_id
encode-floor_status_message version conf tx user fid rid status small =
    let octet : bit_or (version * 32 % 256) 0 ≡ version * 32 % 256 =
      bit_or_pack version 0 small (omega arith) ∙ (omega arith) in
    rw octet refl

-- What fits a FloorStatus: a known version and values within their widths.
pub record Fits (version conf tx user fid rid status : ℕ) : Type 0 where
  pub version_known : (version ≡ 1) ⊎ (version ≡ 2)
  pub conference_fits : conf < 4294967296
  pub transaction_fits : IsWord tx
  pub user_fits : IsWord user
  pub floor_fits : IsWord fid
  pub request_fits : IsWord rid
  pub status_fits : IsByte status

-- The message that the receiver gets.
abbrev floor_attribute : ℕ → Attribute
floor_attribute fid = record { type = 2; length = 2; value = put_uint16 fid; raw_tlv = false }

abbrev announced : (version conf tx user fid rid status : ℕ) → Message
announced version conf tx user fid rid status = record {
  version = version;
  reserved = 0;
  primitive = Primitive.floor_status;
  payload_length = 6;
  conference_id = conf;
  transaction_id = tx;
  user_id = user;
  attributes = floor_attribute fid ∷ received_info rid status fid ∷ [];
}
