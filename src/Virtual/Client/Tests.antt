-- ===== src/Virtual/Client/Tests.antt =====
-- Virtual clients at concrete inputs.
use bfcp.Base.{ℕ, ◌≡◌, refl, true, false, some, [], ◌∷◌, nat_eq}
use bfcp.Types.RequestStatus
use bfcp.Message.{Message, new_message, add_attribute, add_floor_id}
use bfcp.Message.Status.{Reports, received_info}
use bfcp.Message.Fields.{
  get_floor_request_id, get_floor_id, get_request_status, get_word, get_attribute, find_attribute,
}
use bfcp.Message.Grouped.{floor_request_infos, infos_of, status_of}
use bfcp.Session.{wait_floor_request}
use bfcp.Client.{Client, next_transaction_id}
use bfcp.Client.Calls.{Script}
use bfcp.Virtual.Client.{VirtualClient, RequestOptions, blocked, request_floor, close}
use bfcp.Virtual.Client.Close.{IsFarewell, close-IsFarewell}
use bfcp.Virtual.Client.Blocked.{request_floor-blocked}

abbrev under : Client
under = record {
  config = record { conference_id = 1; user_id = 8 };
  state = wait_floor_request;
  is_connected = true;
  next_tx_id = 0;
  active_requests = [];
  pending_responses = [];
  log = [];
}

-- Floor 5 is held under request 3.
abbrev holder : VirtualClient
holder = record {
  client = under;
  has_client = true;
  active_requests = [];
  held_floors = (5, 3) ∷ [];
  is_closed = false;
  is_connected = true;
  log = [];
}

abbrev silent : ℕ → Script
silent fid = record { sends = true; meanwhile = [] }

close-IsFarewell_example : IsFarewell true holder (close silent true holder)
close-IsFarewell_example = close-IsFarewell silent true holder

abbrev plain_options : RequestOptions
plain_options = record { priority = 0; beneficiary_id = 0 }

abbrev granted_at_once : Message
granted_at_once = record {
  version = 1;
  reserved = 0;
  primitive = 4;
  payload_length = 5;
  conference_id = 1;
  transaction_id = 1;
  user_id = 8;
  attributes = received_info 3 3 6 ∷ [];
}

granted_is_reported : Reports 3 RequestStatus.granted 6 granted_at_once
unfolding get_floor_request_id get_floor_id get_request_status get_word get_attribute find_attribute
    floor_request_infos infos_of status_of
granted_is_reported = (refl, refl, refl)

request_floor-blocked_example :
    (request_floor true (some (20, granted_at_once)) 10 6 plain_options holder).1 ≡ blocked
request_floor-blocked_example =
    request_floor-blocked 10 20 6 3 plain_options granted_at_once holder refl refl refl refl
      (unfold next_transaction_id new_message add_floor_id add_attribute in refl) refl
      granted_is_reported
