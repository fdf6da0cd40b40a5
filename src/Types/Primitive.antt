-- ===== src/Types/Primitive.antt =====
-- The message types: `type Primitive uint8` of types.go.
use bfcp.Base.{ℕ}

abbrev pub floor_request : ℕ
floor_request = 1

abbrev pub floor_release : ℕ
floor_release = 2

abbrev pub floor_request_query : ℕ
floor_request_query = 3

abbrev pub floor_request_status : ℕ
floor_request_status = 4

abbrev pub user_query : ℕ
user_query = 5

abbrev pub user_status : ℕ
user_status = 6

abbrev pub floor_query : ℕ
floor_query = 7

abbrev pub floor_status : ℕ
floor_status = 8

abbrev pub chair_action : ℕ
chair_action = 9

abbrev pub chair_action_ack : ℕ
chair_action_ack = 10

abbrev pub hello : ℕ
hello = 11

abbrev pub hello_ack : ℕ
hello_ack = 12

abbrev pub error : ℕ
error = 13

abbrev pub floor_request_status_ack : ℕ
floor_request_status_ack = 14

abbrev pub floor_status_ack : ℕ
floor_status_ack = 15

abbrev pub goodbye : ℕ
goodbye = 16

abbrev pub goodbye_ack : ℕ
goodbye_ack = 17

abbrev pub tandberg_floor_request_status_ack : ℕ
tandberg_floor_request_status_ack = 91

abbrev pub tandberg_floor_status_ack : ℕ
tandberg_floor_status_ack = 93
