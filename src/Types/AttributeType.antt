-- ===== src/Types/AttributeType.antt =====
-- The attribute types: `type AttributeType uint8` of types.go.
use bfcp.Base.{ℕ}

abbrev pub beneficiary_id : ℕ
beneficiary_id = 1

abbrev pub floor_id : ℕ
floor_id = 2

abbrev pub floor_request_id : ℕ
floor_request_id = 3

abbrev pub priority : ℕ
priority = 4

abbrev pub request_status : ℕ
request_status = 5

abbrev pub error_code : ℕ
error_code = 6

abbrev pub error_info : ℕ
error_info = 7

abbrev pub participant_provided_info : ℕ
participant_provided_info = 8

abbrev pub status_info : ℕ
status_info = 9

abbrev pub supported_attributes : ℕ
supported_attributes = 10

abbrev pub supported_primitives : ℕ
supported_primitives = 11

abbrev pub user_display_name : ℕ
user_display_name = 12

abbrev pub user_uri : ℕ
user_uri = 13

abbrev pub beneficiary_info : ℕ
beneficiary_info = 14

abbrev pub floor_request_info : ℕ
floor_request_info = 15

abbrev pub requested_by_info : ℕ
requested_by_info = 16

abbrev pub floor_request_status : ℕ
floor_request_status = 17

abbrev pub overall_request_status : ℕ
overall_request_status = 18
