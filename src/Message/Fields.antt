-- ===== src/Message/Fields.antt =====
-- The getters of message.go. `(value, bool)` is an `Option`.
use bfcp.Base.{ℕ, ◌==◌, if◌then◌else◌, Option, none, some, List, [], ◌∷◌}
use bfcp.Base.Bytes.{uint16}
use bfcp.Types.AttributeType
use bfcp.Message.{Attribute, Message}
use bfcp.Message.Grouped.{FloorRequestInfo, status_of, floor_request_infos}

unfoldable pub find_attribute : (attr_type : ℕ) → List Attribute → Option Attribute
find_attribute t [] = none
find_attribute t (a ∷ attrs) = if a.type == t then some a else find_attribute t attrs

-- The first attribute of the type.
unfoldable pub get_attribute : (attr_type : ℕ) → Message → Option Attribute
unfolding find_attribute
get_attribute t m = find_attribute t m.attributes

abbrev pub first_word : List ℕ → Option ℕ
first_word (hi ∷ lo ∷ _) = some (uint16 hi lo)
first_word _ = none

-- The first two octets of the first attribute of the type, if it has them.
unfoldable pub get_word : (attr_type : ℕ) → Message → Option ℕ
unfolding get_attribute
get_word t m = elim (get_attribute t m) [ some attr ↦ first_word attr.value | none ↦ none ]

abbrev pub first_floor : List FloorRequestInfo → Option ℕ
first_floor [] = none
first_floor (info ∷ infos) = elim info.floors [ fl ∷ _ ↦ some fl.floor_id | [] ↦ first_floor infos ]

unfoldable pub get_floor_id : Message → Option ℕ
unfolding get_word
get_floor_id m = elim (get_word AttributeType.floor_id m) [
  | some w ↦ some w
  | none ↦ first_floor (floor_request_infos m)
]

abbrev pub first_request_id : List FloorRequestInfo → Option ℕ
first_request_id [] = none
first_request_id (info ∷ _) = some info.floor_request_id

unfoldable pub get_floor_request_id : Message → Option ℕ
unfolding get_word
get_floor_request_id m = elim (get_word AttributeType.floor_request_id m) [
  | some w ↦ some w
  | none ↦ first_request_id (floor_request_infos m)
]

unfoldable pub get_beneficiary_id : Message → Option ℕ
unfolding get_word
get_beneficiary_id m = get_word AttributeType.beneficiary_id m

abbrev pub first_status : List FloorRequestInfo → Option (ℕ × ℕ)
first_status [] = none
first_status (info ∷ infos) = elim (status_of info) [
  | some s ↦ some (s, info.queue_position)
  | none ↦ first_status infos
]

abbrev pub first_pair : List ℕ → Option (ℕ × ℕ)
first_pair (s ∷ q ∷ _) = some (s, q)
first_pair _ = none

abbrev pub status_pair : Option Attribute → Option (ℕ × ℕ)
status_pair (some attr) = first_pair attr.value
status_pair none = none

-- The status and the queue position.
unfoldable pub get_request_status : Message → Option (ℕ × ℕ)
unfolding get_attribute
get_request_status m = elim (status_pair (get_attribute AttributeType.request_status m)) [
  | some p ↦ some p
  | none ↦ first_status (floor_request_infos m)
]

abbrev pub first_byte : List ℕ → Option ℕ
first_byte (b ∷ _) = some b
first_byte [] = none

unfoldable pub get_error_code : Message → Option ℕ
unfolding get_attribute
get_error_code m = elim (get_attribute AttributeType.error_code m) [
  | some attr ↦ first_byte attr.value
  | none ↦ none
]

-- The bytes of the string.
unfoldable pub get_error_info : Message → Option (List ℕ)
unfolding get_attribute
get_error_info m = elim (get_attribute AttributeType.error_info m) [
  | some attr ↦ some attr.value
  | none ↦ none
]
