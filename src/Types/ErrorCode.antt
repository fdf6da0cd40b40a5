-- ===== src/Types/ErrorCode.antt =====
-- The error codes: `type ErrorCode uint8` of types.go.
use bfcp.Base.{ℕ}

abbrev pub conference_does_not_exist : ℕ
conference_does_not_exist = 1

abbrev pub user_does_not_exist : ℕ
user_does_not_exist = 2

abbrev pub unknown_primitive : ℕ
unknown_primitive = 3

abbrev pub unknown_mandatory_attribute : ℕ
unknown_mandatory_attribute = 4

abbrev pub unauthorized_operation : ℕ
unauthorized_operation = 5

abbrev pub invalid_floor_id : ℕ
invalid_floor_id = 6

abbrev pub floor_request_id_does_not_exist : ℕ
floor_request_id_does_not_exist = 7

abbrev pub maximum_floors_reached : ℕ
maximum_floors_reached = 8

abbrev pub use_bfcp : ℕ
use_bfcp = 9

abbrev pub floor_release_denied : ℕ
floor_release_denied = 10

abbrev pub insufficient_user_privileges : ℕ
insufficient_user_privileges = 11
