-- ===== src/Server/Dispatch.antt =====
-- The `switch` of `handleMessage` and `handleUDPMessage` of server.go, and the sessions that
-- connections and datagrams make. `fresh` is the pointer of a new session object.
use bfcp.Base.{ℕ, ◌==◌, ◌%◌, if◌then◌else◌, none, some, nat_eq}
use bfcp.Base.Dict.{lookup, insert, remove}
use bfcp.Types.Primitive
use bfcp.Session.{SessionStateMachine, new_session_state_machine, update_activity}
use bfcp.Message.{Message}
use bfcp.Server.{
  Carrier, tcp, udp, Session, Server, Env, on_client_disconnect, emit, update_session,
}
use bfcp.Server.Request.{handle_floor_request, handle_udp_floor_request}
use bfcp.Server.Release.{
  handle_floor_release, handle_udp_floor_release, handle_floor_query, handle_udp_floor_query,
  handle_goodbye, handle_udp_goodbye,
}
use bfcp.Server.Hello.{handle_hello, handle_udp_hello}

abbrev pub seen : Env → Message → SessionStateMachine → SessionStateMachine
seen env m ssm = record (update_activity env.now ssm) { client_version = m.version }

-- `Session.handleMessage`. An acknowledgement, an error or an unknown primitive is only logged.
unfoldable pub handle_message : Env → (session : ℕ) → Message → Server → Server
unfolding update_session
handle_message env p m s0 =
    let s = update_session p (seen env m) s0 in
    if m.primitive == Primitive.hello
    then handle_hello env p m s
    else if m.primitive == Primitive.floor_request
    then handle_floor_request env p m s
    else if m.primitive == Primitive.floor_release
    then handle_floor_release env p m s
    else if m.primitive == Primitive.floor_query
    then handle_floor_query env p m s
    else if m.primitive == Primitive.goodbye
    then handle_goodbye env p m s
    else s

-- `Session.handleUDPMessage`.
unfoldable pub handle_udp_message : Env → (session : ℕ) → Message → Server → Server
unfolding update_session
handle_udp_message env p m s0 =
    let s = update_session p (seen env m) s0 in
    if m.primitive == Primitive.hello
    then handle_udp_hello env p m s
    else if m.primitive == Primitive.floor_request
    then handle_udp_floor_request env p m s
    else if m.primitive == Primitive.floor_release
    then handle_udp_floor_release env p m s
    else if m.primitive == Primitive.floor_query
    then handle_udp_floor_query env p m s
    else if m.primitive == Primitive.goodbye
    then handle_udp_goodbye p m s
    else s

abbrev pub new_session : Env → Carrier → (remote : ℕ) → Server → Session
new_session env c addr s = record {
  carrier = c;
  remote = addr;
  machine = new_session_state_machine env.now (s.config.conference_id % 65536) 0 addr;
}

abbrev pub allocate_session : (fresh : ℕ) → Session → Server → Server
allocate_session fresh sess s = record s { objects = insert fresh sess s.objects }

-- `handleConnection`: the session is not registered before its Hello.
unfoldable pub handle_connection : Env → (fresh remote : ℕ) → Server → Server
handle_connection env fresh addr s = allocate_session fresh (new_session env tcp addr s) s

-- `OnClose` of a connection.
unfoldable pub connection_closed : (session : ℕ) → Server → Server
connection_closed p s = elim (lookup p s.objects) [
  | some sess ↦
      emit (on_client_disconnect sess.remote sess.machine.user_id)
        (record s { sessions = remove sess.remote s.sessions })
  | none ↦ s
]

-- `Server.handleUDPMessage` for an address that no `UDPClient` is registered for. An address
-- without a session gets one, which lasts beyond the message only if that is a Hello.
unfoldable pub receive_datagram : Env → (fresh remote : ℕ) → Message → Server → Server
unfolding handle_udp_message
receive_datagram env fresh addr m s = elim (lookup addr s.sessions) [
  | some p ↦ handle_udp_message env p m s
  | none ↦ handle_udp_message env fresh m (allocate_session fresh (new_session env udp addr s) s)
]
