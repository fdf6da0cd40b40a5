-- ===== src/Server/Hello.antt =====
-- `handleHello` and `handleUDPHello` of server.go.
use bfcp.Base.{ℕ, none, some, List, [], ◌∷◌, nat_eq}
use bfcp.Base.Dict.{lookup, insert}
use bfcp.Types.AttributeType
use bfcp.Types.Primitive
use bfcp.Session.{
  SessionStateMachine, set_state, set_supported_primitives, set_supported_attributes,
  wait_floor_request,
}
use bfcp.Message.{Message, add_supported_primitives, add_supported_attributes}
use bfcp.Message.Fields.{get_attribute}
use bfcp.Server.{
  Carrier, tcp, udp, Server, Env, keepalive_started, on_client_connect, emit, update_session,
}
use bfcp.Server.Send.{send, response}

abbrev pub supported_primitives : List ℕ
supported_primitives =
    Primitive.floor_request ∷ Primitive.floor_release ∷ Primitive.floor_request_status
    ∷ Primitive.floor_status ∷ Primitive.hello ∷ Primitive.hello_ack ∷ Primitive.error
    ∷ Primitive.goodbye ∷ Primitive.goodbye_ack ∷ []

abbrev pub supported_attributes : List ℕ
supported_attributes =
    AttributeType.beneficiary_id ∷ AttributeType.floor_id ∷ AttributeType.floor_request_id
    ∷ AttributeType.priority ∷ AttributeType.request_status ∷ AttributeType.error_code
    ∷ AttributeType.error_info ∷ AttributeType.supported_attributes
    ∷ AttributeType.supported_primitives ∷ AttributeType.user_display_name ∷ AttributeType.user_uri
    ∷ AttributeType.beneficiary_info ∷ AttributeType.floor_request_info
    ∷ AttributeType.requested_by_info ∷ AttributeType.floor_request_status
    ∷ AttributeType.overall_request_status ∷ AttributeType.participant_provided_info
    ∷ AttributeType.status_info ∷ []

-- What the Hello says of its sender, in the order of the writes.
abbrev pub greet : Message → SessionStateMachine → SessionStateMachine
greet m ssm =
    let ssm1 = record ssm { conference_id = m.conference_id; user_id = m.user_id } in
    let ssm2 : SessionStateMachine = elim (get_attribute AttributeType.supported_primitives m) [
      | some attr ↦ set_supported_primitives attr.value ssm1
      | none ↦ ssm1
    ] in
    elim (get_attribute AttributeType.supported_attributes m) [
      | some attr ↦ set_supported_attributes attr.value ssm2
      | none ↦ ssm2
    ]

-- `sessions[remoteAddr] = sess`.
abbrev pub register : (session remote : ℕ) → Server → Server
register p addr s = record s { sessions = insert addr p s.sessions }

abbrev pub hello_ack : Carrier → Message → Message
hello_ack c m =
    add_supported_attributes supported_attributes
      (add_supported_primitives supported_primitives (response c Primitive.hello_ack m))

-- The session is registered, and its peer is answered.
abbrev pub welcome : Env → Carrier → (session remote : ℕ) → Message → Server → Server
welcome env c p addr m s =
    update_session p (set_state env.now wait_floor_request)
      (send p (hello_ack c m) (update_session p (greet m) (register p addr s)))

unfoldable pub handle_hello : Env → (session : ℕ) → Message → Server → Server
unfolding send update_session
handle_hello env p m s = elim (lookup p s.objects) [
  | some sess ↦
      emit (on_client_connect sess.remote m.user_id)
        (emit (keepalive_started p) (welcome env tcp p sess.remote m s))
  | none ↦ s
]

-- The hook is called for an address that was not registered before.
unfoldable pub handle_udp_hello : Env → (session : ℕ) → Message → Server → Server
unfolding send update_session
handle_udp_hello env p m s = elim (lookup p s.objects) [
  | some sess ↦
      let s' = welcome env udp p sess.remote m s in
      elim (lookup sess.remote s.sessions) [
        | some _ ↦ s'
        | none ↦ emit (on_client_connect sess.remote m.user_id) s'
      ]
  | none ↦ s
]
