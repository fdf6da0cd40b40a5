-- ===== src/Client/Tests.antt =====
-- Clients of client.go at concrete inputs.
use bfcp.Base.{ℕ, ◌≡◌, refl, true, List, [], ◌∷◌, nat_eq, arith}
use bfcp.Base.Dict.{lookup}
use bfcp.Base.Result.{ok}
use bfcp.Message.{Message, new_message, add_attribute, add_floor_id}
use bfcp.Message.Decode.{decode, decode_attrs}
use bfcp.Message.Status.{received_info}
use bfcp.Message.Tlv.{add_floor_request_information, info_attribute, floor_request_info_attr}
use bfcp.Message.Wire.{wire, attr_wire, received as is_received}
use bfcp.Session.{floor_granted}
use bfcp.Client.{
  ActiveFloorRequest, ClientConfig, Client, new_client, next_transaction_id, handle_message,
}
use bfcp.Client.Calls.{Script, received, request_floor}
use bfcp.Client.Runs.{requests, Move, calls, connects, receives, loses_connection, move_all}
use bfcp.Client.Settled.{Absent, new-move_all-Absent}
use bfcp.Client.Stale.{Keeps, receive_all, receive_all-Keeps}
use bfcp.Client.Exchange.{floor_request}
use bfcp.Client.Response.{status_response}
use bfcp.Client.Grant.{IsGranted, request_floor-IsGranted}

-- User 8 in conference 1.
abbrev settings : ClientConfig
settings = record { conference_id = 1; user_id = 8 }

abbrev a_client : Client
a_client = new_client settings

-- A FloorRequestStatus for floor 5 under request 3, as the client reads it.
abbrev status_of_five : (tx status : ℕ) → Message
status_of_five tx s = record {
  version = 1;
  reserved = 0;
  primitive = 4;
  payload_length = 5;
  conference_id = 1;
  transaction_id = tx;
  user_id = 8;
  attributes = received_info 3 s 5 ∷ [];
}

abbrev answered_pending : Script
answered_pending = record { sends = true; meanwhile = received 10 (status_of_five 1 1) ∷ [] }

abbrev some_moves : List Move
some_moves =
    connects true
    ∷ calls (requests answered_pending 10 5 0 512)
    ∷ receives 20 (status_of_five 1 3)
    ∷ loses_connection
    ∷ []

new-move_all-Absent_example : Absent 1 (move_all some_moves a_client)
new-move_all-Absent_example = new-move_all-Absent settings some_moves 1

abbrev granted_five : ActiveFloorRequest
granted_five = record {
  floor_id = 5;
  floor_request_id = 3;
  beneficiary_id = 0;
  priority = 512;
  status = 3;
  requested_at = 10;
  granted_at = 10;
}

abbrev up_client : Client
up_client = record {
  config = settings;
  state = floor_granted;
  is_connected = true;
  next_tx_id = 0;
  active_requests = (5, granted_five) ∷ [];
  pending_responses = [];
  log = [];
}

-- The floor is revoked.
receive_all-Keeps_example : Keeps 5 3 (receive_all ((20, status_of_five 9 7) ∷ []) up_client)
receive_all-Keeps_example =
    receive_all-Keeps 5 3 ((20, status_of_five 9 7) ∷ []) up_client
      (record { request = granted_five; in_table = unfold lookup in refl; same_id = refl })

status_is_read :
    (decode (wire (status_response 3 1 5 (floor_request 5 0 0 up_client)))
      ≡ ok (status_of_five 1 1))
    × (decode (wire (status_response 3 3 5 (floor_request 5 0 0 up_client)))
        ≡ ok (status_of_five 1 3))
unfolding decode decode_attrs add_floor_request_information info_attribute floor_request_info_attr
    is_received next_transaction_id new_message add_floor_id add_attribute attr_wire
status_is_read = (refl, refl)

request_floor-IsGranted_example :
    let (after, returned) = request_floor answered_pending 10 5 0 0 up_client in
    (returned ≡ ok 3) × IsGranted 20 3 5 (handle_message 20 (status_of_five 1 3) after)
request_floor-IsGranted_example =
    request_floor-IsGranted answered_pending 10 20 [] 5 0 0 3 (status_of_five 1 1)
      (status_of_five 1 3) up_client (omega arith) (omega arith) (omega arith, omega arith) refl
      (unfold lookup in refl) refl refl status_is_read.0 status_is_read.1
