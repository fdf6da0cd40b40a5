-- ===== src/Message.antt =====
-- `Message` and `Attribute` of message.go with the methods that add simple attributes. A byte
-- slice is a list of numbers, and a method on `*Message` returns the new message.
pub mod Tlv
pub mod Grouped
pub mod Fields
pub mod Encode
pub mod Decode
pub mod Read
pub mod Wire
pub mod RoundTrip
pub mod Total
pub mod Status
pub mod Announce
pub mod Framing
mod Tests
use bfcp.Base.{
  ℕ, if◌then◌else◌, Bool, false, true, List, [], ◌∷◌, ◌++◌, map, length, bit_and, bit_or, not, ◌==◌,
}
use bfcp.Base.Bytes.{u8, put_uint16}
use bfcp.Types.AttributeType
use bfcp.Types.Protocol

pub record Attribute : Type 0 where
  pub type : ℕ  -- AttributeType
  pub length : ℕ  -- uint8
  pub value : List ℕ
  pub raw_tlv : Bool

pub record Message : Type 0 where
  pub version : ℕ  -- uint8
  pub reserved : ℕ  -- uint8
  pub primitive : ℕ  -- Primitive
  pub payload_length : ℕ  -- uint16
  pub conference_id : ℕ  -- uint32
  pub transaction_id : ℕ  -- uint16
  pub user_id : ℕ  -- uint16
  pub attributes : List Attribute

-- The literal that the parsers build: the value was copied from `value_length` octets.
abbrev pub parsed : (type value_length : ℕ) (value : List ℕ) → Attribute
parsed t n v = record { type = t; length = u8 n; value = v; raw_tlv = false }

unfoldable pub new_message : (primitive conference_id transaction_id user_id : ℕ) → Message
new_message p c t u = record {
  version = Protocol.default_version;
  reserved = 0;
  primitive = p;
  payload_length = 0;
  conference_id = c;
  transaction_id = t;
  user_id = u;
  attributes = [];
}

-- `Length` is `uint8(len(value))`: it wraps for a value of 256 bytes or more.
unfoldable pub add_attribute : (attr_type : ℕ) (value : List ℕ) → Message → Message
add_attribute t v m = record m {
  attributes =
      m.attributes
      ++ (record { type = t; length = u8 (length v); value = v; raw_tlv = false } ∷ []);
}

unfoldable pub add_floor_id : ℕ → Message → Message
unfolding add_attribute
add_floor_id w m = add_attribute AttributeType.floor_id (put_uint16 w) m

unfoldable pub add_floor_request_id : ℕ → Message → Message
unfolding add_attribute
add_floor_request_id w m = add_attribute AttributeType.floor_request_id (put_uint16 w) m

unfoldable pub add_beneficiary_id : ℕ → Message → Message
unfolding add_attribute
add_beneficiary_id w m = add_attribute AttributeType.beneficiary_id (put_uint16 w) m

unfoldable pub add_request_status : (status queue_position : ℕ) → Message → Message
unfolding add_attribute
add_request_status s q m = add_attribute AttributeType.request_status (u8 s ∷ q ∷ []) m

unfoldable pub add_error_code : ℕ → Message → Message
unfolding add_attribute
add_error_code c m = add_attribute AttributeType.error_code (u8 c ∷ []) m

-- `info` is the bytes of the string.
unfoldable pub add_error_info : (info : List ℕ) → Message → Message
unfolding add_attribute
add_error_info info m = add_attribute AttributeType.error_info info m

unfoldable pub add_supported_primitives : List ℕ → Message → Message
unfolding add_attribute
add_supported_primitives ps m = add_attribute AttributeType.supported_primitives (map u8 ps) m

unfoldable pub add_supported_attributes : List ℕ → Message → Message
unfolding add_attribute
add_supported_attributes ts m = add_attribute AttributeType.supported_attributes (map u8 ts) m

unfoldable pub add_priority : ℕ → Message → Message
unfolding add_attribute
add_priority p m = add_attribute AttributeType.priority (put_uint16 p) m

-- The R flag, of grouped.go.
abbrev pub header_flag_response : ℕ
header_flag_response = 0x10

unfoldable pub is_response : Message → Bool
is_response m = not (bit_and m.reserved header_flag_response == 0)

-- `m.Reserved &^= 0x10` is the mask 0xEF on a `uint8`.
unfoldable pub set_response : Bool → Message → Message
set_response response m =
    if response
    then record m { reserved = bit_or m.reserved header_flag_response }
    else record m { reserved = bit_and m.reserved 0xef }
