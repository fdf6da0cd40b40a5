-- ===== src/Server/Tests.antt =====
-- Runs of the server at concrete inputs.
use bfcp.Base.{inl, inr, ℕ, ◌≡◌, refl, none, some, [], ◌∷◌, true, false, nat_eq, arith}
use bfcp.Base.Dict.{lookup, insert}
use bfcp.Session.{wait_floor_request}
use bfcp.Server.Dispatch.{handle_udp_message}
use bfcp.Server.Answers.{to_session, Answers}
use bfcp.Server.Release.{floor_release}
use bfcp.Server.Answers.Handlers.{floor_release-Answers}
use bfcp.Server.Answers.Dispatch.{IsRequest, handle_udp_message-Answers, handle_udp_message_silent}
use bfcp.Server.{get_floor, create_floor, put_floor}
use bfcp.Floor.{FloorStateMachine, apply, do_deny, new_floor_state_machine}
use bfcp.Message.{Message}
use bfcp.Server.{tcp, udp, Session, Server, ServerConfig, Env, new_server}
use bfcp.Server.Dispatch.{receive_datagram}
use bfcp.Server.Evolve.{FloorsValid, Holds}
use bfcp.Server.Application.{at_start, further, serves, creates, calls, reachable-FloorsValid}
use bfcp.Server.Safety.{Others, start, next, datagram, Steps-Holds}

abbrev at_ten : Env
at_ten = record { now = 10; text = λ t. []; decide = none }

abbrev granting : ServerConfig
granting = record { conference_id = 1; auto_grant = true }

abbrev floor_of : (state owner request : ℕ) → FloorStateMachine
floor_of st u r = record {
  floor_id = 5;
  conference_id = 1;
  current_state = st;
  owner_user_id = u;
  floor_request_id = r;
  priority = 2;
  created_at = 0;
  granted_at = 0;
}

abbrev with_floor : FloorStateMachine → Server
with_floor f = record {
  config = granting;
  floors = (5, f) ∷ [];
  objects = [];
  sessions = [];
  next_tx_id = 3;
  log = [];
}

-- A message of user 8 about floor 5.
abbrev from_eight : (primitive : ℕ) → Message
from_eight prim = record {
  version = 2;
  reserved = 0;
  primitive = prim;
  payload_length = 1;
  conference_id = 1;
  transaction_id = 9;
  user_id = 8;
  attributes = record { type = 2; length = 2; value = 0 ∷ 5 ∷ []; raw_tlv = false } ∷ [];
}

eight_is_another : Others 7 8
eight_is_another = (λ e. let no : ⊥ = omega arith in no, λ e. let no : ⊥ = omega arith in no)

five_is_made :
    lookup 5 (create_floor at_ten 5 (new_server granting)).0.floors
    ≡ some (new_floor_state_machine at_ten.now 5 granting.conference_id)
unfolding create_floor new_server get_floor lookup insert
five_is_made = refl

-- The application makes floor 5 and denies it, and user 8 requests it.
reachable-FloorsValid_example :
    FloorsValid
      (receive_datagram at_ten 1 99 (from_eight 1) (
        put_floor 5
          (apply do_deny (new_floor_state_machine at_ten.now 5 granting.conference_id)).0
          (create_floor at_ten 5 (new_server granting)).0)).floors
reachable-FloorsValid_example = reachable-FloorsValid granting _ (
    further (further (further at_start (creates at_ten 5)) (calls do_deny 5 _ five_is_made))
      (serves (datagram at_ten 1 99 (from_eight 1) tt)))

held_by_seven : Holds 5 7 3 (with_floor (floor_of 3 7 3)).floors
unfolding lookup
held_by_seven = (floor_of 3 7 3, refl, (refl, refl, refl))

-- User 8 requests the floor that user 7 holds, then tries to release it.
Steps-Holds_example :
    Holds 5 7 3
      (receive_datagram at_ten 2 99
        (from_eight 2)
        (receive_datagram at_ten 1 99 (from_eight 1) (with_floor (floor_of 3 7 3)))).floors
Steps-Holds_example =
    Steps-Holds 5 7 3
      (next (next start (datagram at_ten 1 99 (from_eight 1) eight_is_another))
        (datagram at_ten 2 99 (from_eight 2) eight_is_another))
      held_by_seven

-- The session of user 8, over UDP, in the state that a Hello leaves.
abbrev session_of_eight : Session
session_of_eight = record {
  carrier = udp;
  remote = 99;
  machine = record {
    current_state = wait_floor_request;
    conference_id = 1;
    user_id = 8;
    remote_addr = 99;
    client_version = 2;
    supported_primitives = [];
    supported_attributes = [];
    created_at = 0;
    last_activity_at = 0;
  };
}

abbrev with_session : Server
with_session = record (with_floor (floor_of 3 7 3)) {
  objects = (1, session_of_eight) ∷ [];
  sessions = (99, 1) ∷ [];
}

at_session_one : lookup 1 with_session.objects ≡ some session_of_eight
unfolding lookup
at_session_one = refl

handle_udp_message-Answers_example :
    Answers 1 (from_eight 1) with_session (handle_udp_message at_ten 1 (from_eight 1) with_session)
handle_udp_message-Answers_example =
    handle_udp_message-Answers at_ten 1 (from_eight 1) session_of_eight with_session at_session_one
      (inr (inl refl))

-- The same session over TCP: user 8 releases a floor that user 7 holds.
abbrev with_tcp_session : Server
with_tcp_session = record with_session {
  objects = (1, record session_of_eight { carrier = tcp }) ∷ [];
}

at_tcp_session :
    lookup 1 with_tcp_session.objects ≡ some (record session_of_eight { carrier = tcp })
unfolding lookup
at_tcp_session = refl

floor_release-Answers_example :
    Answers 1
      (from_eight 2)
      with_tcp_session
      (floor_release at_ten tcp 1 (from_eight 2) with_tcp_session)
floor_release-Answers_example =
    floor_release-Answers at_ten tcp 1 (from_eight 2) (record session_of_eight { carrier = tcp })
      with_tcp_session at_tcp_session

goodbye_is_no-IsRequest : ¬ IsRequest 16
goodbye_is_no-IsRequest e = let no_such : ⊥ = ground arith in no_such

handle_udp_message_silent_example :
    to_session 1 (handle_udp_message at_ten 1 (from_eight 16) with_session).log
    ≡ to_session 1 with_session.log
handle_udp_message_silent_example =
    handle_udp_message_silent at_ten 1 (from_eight 16) with_session goodbye_is_no-IsRequest
