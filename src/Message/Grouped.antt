-- ===== src/Message/Grouped.antt =====
-- grouped.go: the attributes inside an attribute, and FLOOR-REQUEST-INFORMATION.
use bfcp.Base.{
  ℕ, zero, suc, ◌-◌, ◌/◌, ◌%◌, ltb, ◌==◌, if◌then◌else◌, Bool, true, false, ◌||◌, Option, none,
  some, List, [], ◌∷◌, ◌++◌, length, take, drop,
}
use bfcp.Base.Bytes.{uint16}
use bfcp.Base.Result.{Result, ok, err}
use bfcp.Types.AttributeType
use bfcp.Message.{Attribute, Message, parsed}

pub record FloorRequestStatusInfo : Type 0 where
  pub floor_id : ℕ
  pub status : ℕ
  pub queue_position : ℕ
  pub has_status : Bool

pub record FloorRequestInfo : Type 0 where
  pub floor_request_id : ℕ
  pub overall_status : ℕ
  pub queue_position : ℕ
  pub has_overall : Bool
  pub floors : List FloorRequestStatusInfo
  pub beneficiary_id : ℕ
  pub has_beneficiary : Bool
  pub requested_by_id : ℕ
  pub has_requested_by : Bool
  pub priority : ℕ
  pub has_priority : Bool

-- `stuck` is no Go value: the loop ran out of fuel.
pub data GroupError : Type 0 where
  too_short : GroupError
  invalid_length : ℕ → GroupError
  stuck : GroupError

abbrev pub first_floor_status : List FloorRequestStatusInfo → Option ℕ
first_floor_status [] = none
first_floor_status (fl ∷ fls) = if fl.has_status then some fl.status else first_floor_status fls

-- `Status`: the overall status when present, else that of the first floor that has one.
unfoldable pub status_of : FloorRequestInfo → Option ℕ
status_of f = if f.has_overall then some f.overall_status else first_floor_status f.floors

-- The octets of padding behind an attribute whose length field is `l`.
abbrev pub padding : ℕ → ℕ
padding l = if l % 4 == 0 then 0 else 4 - l % 4

-- The list is `data[offset:]`. Each round takes two octets at least.
unfoldable pub parse_tlvs_loop :
    (fuel : ℕ) → List ℕ → List Attribute → Result GroupError (List Attribute)
parse_tlvs_loop fuel [] attrs = ok attrs
parse_tlvs_loop fuel (t ∷ []) attrs = ok attrs
parse_tlvs_loop zero (t ∷ l ∷ body) attrs = err stuck
parse_tlvs_loop (suc fuel) (t ∷ l ∷ body) attrs =
    let attr = parsed (t / 2) (l - 2) (take (l - 2) body) in
    let rest = parse_tlvs_loop fuel (drop (padding l) (drop (l - 2) body)) (attrs ++ (attr ∷ [])) in
    if ltb l 2 || ltb (length body) (l - 2) then err (invalid_length l) else rest

unfoldable pub parse_tlvs : List ℕ → Result GroupError (List Attribute)
unfolding parse_tlvs_loop
parse_tlvs bytes = parse_tlvs_loop (length bytes) bytes []

abbrev pub first_request_status : List Attribute → Option (ℕ × ℕ)
first_request_status [] = none
first_request_status (sub ∷ subs) =
    let later = first_request_status subs in
    if sub.type == AttributeType.request_status
    then elim sub.value [ s ∷ (q ∷ _) ↦ some (s, q) | _ ↦ later ]
    else later

-- The status and the queue position of the first REQUEST-STATUS of two octets or more.
unfoldable pub find_request_status : List ℕ → Option (ℕ × ℕ)
unfolding parse_tlvs
find_request_status bytes = elim (parse_tlvs bytes) [
  | ok subs ↦ first_request_status subs
  | err _ ↦ none
]

abbrev pub empty_info : FloorRequestInfo
empty_info = record {
  floor_request_id = 0;
  overall_status = 0;
  queue_position = 0;
  has_overall = false;
  floors = [];
  beneficiary_id = 0;
  has_beneficiary = false;
  requested_by_id = 0;
  has_requested_by = false;
  priority = 0;
  has_priority = false;
}

-- The cases of the `switch` for a value of two octets or more: `w` is the first two, as a number.
with_overall : List ℕ → FloorRequestInfo → FloorRequestInfo
with_overall rest info = elim (find_request_status rest) [
  | some (s, q) ↦ record info { overall_status = s; queue_position = q; has_overall = true }
  | none ↦ info
]

floor_status : (floor_id : ℕ) → List ℕ → FloorRequestStatusInfo
floor_status fid rest = elim (find_request_status rest) [
  | some (s, q) ↦ record { floor_id = fid; status = s; queue_position = q; has_status = true }
  | none ↦ record { floor_id = fid; status = 0; queue_position = 0; has_status = false }
]

sub_case : (type w : ℕ) → List ℕ → FloorRequestInfo → FloorRequestInfo
unfolding with_overall floor_status
sub_case t w rest info =
    if t == AttributeType.overall_request_status
    then with_overall rest info
    else if t == AttributeType.floor_request_status
    then record info { floors = info.floors ++ (floor_status w rest ∷ []) }
    else if t == AttributeType.beneficiary_info
    then record info { beneficiary_id = w; has_beneficiary = true }
    else if t == AttributeType.requested_by_info
    then record info { requested_by_id = w; has_requested_by = true }
    else if t == AttributeType.priority
    then record info { priority = w; has_priority = true }
    else info

-- The loop over the sub-attributes: one with a value under two octets is passed over.
unfoldable pub apply_subs : List Attribute → FloorRequestInfo → FloorRequestInfo
unfolding sub_case
apply_subs [] info = info
apply_subs (sub ∷ subs) info =
    apply_subs subs
      (elim sub.value [ hi ∷ (lo ∷ rest) ↦ sub_case sub.type (uint16 hi lo) rest info | _ ↦ info ])

unfoldable pub parse_floor_request_info : List ℕ → Result GroupError FloorRequestInfo
unfolding parse_tlvs apply_subs find_request_status
parse_floor_request_info (hi ∷ lo ∷ rest) = elim (parse_tlvs rest) [
  | ok subs ↦ ok (apply_subs subs (record empty_info { floor_request_id = uint16 hi lo }))
  | err e ↦ err e
]
parse_floor_request_info _ = err too_short

-- The octets that the parser is given: a pre-encoded attribute is read behind its header.
abbrev pub info_value : Attribute → Option (List ℕ)
info_value attr =
    if attr.raw_tlv
    then elim attr.value [ t ∷ (l ∷ body) ↦ some body | _ ↦ none ]
    else some attr.value

unfoldable pub parsed_info : Attribute → Option FloorRequestInfo
unfolding parse_floor_request_info
parsed_info attr =
    if attr.type == AttributeType.floor_request_info
    then elim (info_value attr) [
      | some value ↦ elim (parse_floor_request_info value) [ ok info ↦ some info | err _ ↦ none ]
      | none ↦ none
    ]
    else none

-- `FloorRequestInfos`: those that parse, in the order of the message.
unfoldable pub infos_of : List Attribute → List FloorRequestInfo
unfolding parsed_info
infos_of [] = []
infos_of (attr ∷ attrs) = elim (parsed_info attr) [
  | some info ↦ info ∷ infos_of attrs
  | none ↦ infos_of attrs
]

unfoldable pub floor_request_infos : Message → List FloorRequestInfo
unfolding infos_of
floor_request_infos m = infos_of m.attributes
