-- ===== src/Server/Register.antt =====
-- `sendFloorState`, `broadcastFloorState` and `RegisterClient` of server.go: what the server says
-- of a floor on its own, in octets that it encodes by hand.
pub mod Announced
use bfcp.Base.{ℕ, ◌%◌, Option, none, some, List, [], ◌∷◌, nat_eq}
use bfcp.Base.Dict.{lookup}
use bfcp.Types.RequestStatus
use bfcp.Session.{SessionStateMachine, new_session_state_machine}
use bfcp.Message.Tlv.{build_floor_status_message}
use bfcp.Server.{Carrier, tcp, udp, Session, Server, Env, sent_raw, emit, get_floor, take_tx_id}
use bfcp.Server.Send.{protocol_version}
use bfcp.Server.Hello.{register}
use bfcp.Server.Dispatch.{allocate_session}

-- A transaction that the server starts has ID 0 over UDP.
abbrev pub transaction_for : Carrier → Server → Server × ℕ
transaction_for udp s = (s, 0)
transaction_for tcp s = take_tx_id s

-- The request ID is 1, whatever request the floor is held under.
abbrev pub floor_state_octets : Session → (transaction floor_id status : ℕ) → Server → List ℕ
floor_state_octets sess tx fid status s =
    build_floor_status_message (protocol_version sess) s.config.conference_id tx
      sess.machine.user_id fid 1 status

unfoldable pub send_floor_state : (session floor_id status : ℕ) → Server → Server
unfolding take_tx_id
send_floor_state p fid status s = elim (lookup p s.objects) [
  | none ↦ s
  | some sess ↦
      let (s', tx) = transaction_for sess.carrier s in
      emit (sent_raw p (floor_state_octets sess tx fid status s)) s'
]

-- The loop over the sessions.
unfoldable pub send_floor_state_to : (floor_id status : ℕ) → List (ℕ × ℕ) → Server → Server
send_floor_state_to fid status [] s = s
send_floor_state_to fid status ((addr, p) ∷ rest) s =
    send_floor_state_to fid status rest (send_floor_state p fid status s)

unfoldable pub broadcast_floor_state : (floor_id status : ℕ) → Server → Server
unfolding send_floor_state_to
broadcast_floor_state fid status s = send_floor_state_to fid status s.sessions s

-- The state of the floor, or released if there is no such floor.
abbrev pub state_of : ℕ → Server → ℕ
state_of fid s = elim (get_floor fid s) [ some f ↦ f.current_state | none ↦ RequestStatus.released ]

abbrev pub registered_session : Env → (user_id version addr : ℕ) → Server → Session
registered_session env u v addr s = record {
  carrier = udp;
  remote = addr;
  machine = record (new_session_state_machine env.now (s.config.conference_id % 65536) u addr) {
    client_version = v;
  };
}

-- `RegisterClient` with a UDP listener, for an address that resolves; else it returns an error and
-- does nothing.
unfoldable pub register_client : Env → (fresh addr user_id floor_id version : ℕ) → Server → Server
unfolding get_floor send_floor_state
register_client env fresh addr u fid v s = elim (lookup addr s.sessions) [
  | some p ↦ send_floor_state p fid (state_of fid s) s
  | none ↦
      send_floor_state fresh fid (state_of fid s)
        (register fresh addr (allocate_session fresh (registered_session env u v addr s) s))
]
