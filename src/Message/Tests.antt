-- ===== src/Message/Tests.antt =====
-- Runs of the codec at concrete inputs.
use bfcp.Base.{ℕ, ◌≡◌, refl, inr, some, List, [], ◌∷◌, ◌++◌, map, All, false, arith}
use bfcp.Base.Bytes.{IsByte}
use bfcp.Base.Result.{ok}
use bfcp.Message.{Attribute, Message, parsed}
use bfcp.Message.Tlv.{info_attribute, add_floor_request_information}
use bfcp.Message.Encode.{encode}
use bfcp.Message.Decode.{decode, decode_payload, decode_attrs}
use bfcp.Message.Wire.{received, IsEncodable, prepared, wire}
use bfcp.Message.RoundTrip.{IsWellFormed, decode-encode}
use bfcp.Message.Total.{encode-decode}
use bfcp.Message.Tlv.{build_floor_status_message}
use bfcp.Message.Announce.{floor_status_message, encode-floor_status_message}
use bfcp.Message.Framing.{write_all, read_all, delivered, read_all-write_all}
use bfcp.Message.Status.{Reports, info_attribute-IsEncodable, status_delivered}

-- A FloorRequestStatus of user 7 in conference 1, without attributes.
abbrev bare : Message
bare = record {
  version = 2;
  reserved = 16;
  primitive = 4;
  payload_length = 0;
  conference_id = 1;
  transaction_id = 9;
  user_id = 7;
  attributes = [];
}

bare-IsWellFormed : IsWellFormed bare
bare-IsWellFormed = record {
  version_known = inr refl;
  reserved_fits = omega arith;
  primitive_fits = omega arith;
  conference_fits = omega arith;
  transaction_fits = omega arith;
  user_fits = omega arith;
  encodable = tt;
  payload_fits = omega arith;
}

-- FLOOR-ID 5, and what the server says of floor 5 under request 3.
abbrev floor_five : Attribute
floor_five = record { type = 2; length = 2; value = 0 ∷ 5 ∷ []; raw_tlv = false }

abbrev full : Message
full = record bare { attributes = floor_five ∷ info_attribute 3 3 5 ∷ [] }

floor_five-IsEncodable : IsEncodable floor_five
unfolding received
floor_five-IsEncodable = ground arith

full-IsWellFormed : IsWellFormed full
unfolding info_attribute
full-IsWellFormed = record {
  version_known = inr refl;
  reserved_fits = omega arith;
  primitive_fits = omega arith;
  conference_fits = omega arith;
  transaction_fits = omega arith;
  user_fits = omega arith;
  encodable = (floor_five-IsEncodable, (info_attribute-IsEncodable 3 3 5, tt));
  payload_fits = omega arith;
}

decode-encode_example :
    (encode full ≡ some (prepared full, wire full))
    × (decode (wire full ++ (1 ∷ 2 ∷ []))
        ≡ ok (record (prepared full) { attributes = map received full.attributes }))
decode-encode_example = decode-encode full (1 ∷ 2 ∷ []) full-IsWellFormed

-- A FloorRequest for floor 5, with dirty padding behind its FLOOR-ID.
abbrev request_octets : List ℕ
request_octets =
    32 ∷ 1 ∷ 0 ∷ 2 ∷ 0 ∷ 0 ∷ 0 ∷ 1 ∷ 0 ∷ 9 ∷ 0 ∷ 7 ∷ 5 ∷ 4 ∷ 0 ∷ 5 ∷ 10 ∷ 3 ∷ 1 ∷ 99 ∷ []

abbrev request_read : Message
request_read = record {
  version = 1;
  reserved = 0;
  primitive = 1;
  payload_length = 2;
  conference_id = 1;
  transaction_id = 9;
  user_id = 7;
  attributes = parsed 2 2 (0 ∷ 5 ∷ []) ∷ parsed 5 1 (1 ∷ []) ∷ [];
}

request_octets-IsByte : All IsByte request_octets
request_octets-IsByte = ground arith

request_decoded : decode request_octets ≡ ok request_read
unfolding decode decode_payload decode_attrs
request_decoded = refl

encode-decode_example :
    IsWellFormed request_read
    × (encode request_read ≡ some (request_read, wire request_read))
    × (decode (wire request_read ++ []) ≡ ok request_read)
encode-decode_example =
    encode-decode request_octets request_read [] request_octets-IsByte request_decoded

read_all-write_all_example :
    (stream : List ℕ) × (write_all (full ∷ bare ∷ []) [] ≡ some stream)
    × (read_all 2 (stream ++ (32 ∷ [])) ≡ ok (map delivered (full ∷ bare ∷ []), 32 ∷ []))
read_all-write_all_example =
    read_all-write_all (full ∷ bare ∷ []) (32 ∷ []) (full-IsWellFormed, (bare-IsWellFormed, tt))

status_delivered_example :
    let sent = add_floor_request_information 300 3 5 bare in
    Reports 300 3 5 sent
    × (encode sent ≡ some (prepared sent, wire sent))
    × ((got : Message) × (decode (wire sent ++ []) ≡ ok got) × Reports 300 3 5 got)
status_delivered_example =
    status_delivered 300 3 5 bare [] (omega arith) (omega arith) (omega arith) refl
      bare-IsWellFormed

encode-floor_status_message_example :
    encode (floor_status_message 1 1 9 7 5 300 3)
    ≡ some (
      prepared (floor_status_message 1 1 9 7 5 300 3),
      build_floor_status_message 1 1 9 7 5 300 3,
    )
encode-floor_status_message_example = encode-floor_status_message 1 1 9 7 5 300 3 (omega arith)
