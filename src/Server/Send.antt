-- ===== src/Server/Send.antt =====
-- The functions of server.go that build a response or a notification and send it.
use bfcp.Base.{
  ℕ, ltb, ◌==◌, not, if◌then◌else◌, Bool, true, false, ◌||◌, ◌&&◌, Option, none, some, List, [],
  ◌∷◌, nat_eq,
}
use bfcp.Base.Dict.{lookup}
use bfcp.Types.Primitive
use bfcp.Types.Protocol
use bfcp.Message.{Message, new_message, set_response, add_error_code, add_error_info}
use bfcp.Message.Tlv.{add_floor_request_information}
use bfcp.Server.{Carrier, tcp, udp, Session, Server, Env, ErrorText, sent, emit, take_tx_id}

unfoldable pub protocol_version : Session → ℕ
protocol_version sess =
    if ltb 0 sess.machine.client_version
    then sess.machine.client_version
    else elim sess.carrier [ udp ↦ Protocol.version_rfc8855 | tcp ↦ Protocol.version_rfc4582 ]

-- The message as it leaves: `sendUDP` clears the R flag for a peer that is not of version 2.
abbrev pub outgoing_udp : (version : ℕ) → Message → Message
outgoing_udp v m =
    let m' = record m { version = v } in
    if not (v == Protocol.version_rfc8855) then set_response false m' else m'

abbrev pub outgoing : Session → Message → Message
outgoing sess m = elim sess.carrier [
  | udp ↦ outgoing_udp (protocol_version sess) m
  | tcp ↦ record m { version = protocol_version sess }
]

-- `send` and `sendUDP`. The transport may fail to send; then only `OnMessageOut` is not called.
unfoldable pub send : (session : ℕ) → Message → Server → Server
unfolding protocol_version
send p m s = elim (lookup p s.objects) [ some sess ↦ emit (sent p (outgoing sess m)) s | none ↦ s ]

-- The response to `req`: the UDP functions set the R flag.
abbrev pub response : Carrier → (primitive : ℕ) → (req : Message) → Message
response tcp prim req = new_message prim req.conference_id req.transaction_id req.user_id
response udp prim req =
    set_response true (new_message prim req.conference_id req.transaction_id req.user_id)

-- `sendFloorStatus` and `sendUDPFloorStatusResponse`.
unfoldable pub send_floor_status :
    Carrier → (session : ℕ) → (req : Message) → (floor_id request_id status : ℕ) → Server → Server
unfolding send
send_floor_status c p req fid rid status s =
    send p
      (add_floor_request_information rid status fid (response c Primitive.floor_request_status req))
      s

abbrev pub with_info : List ℕ → Message → Message
with_info [] m = m
with_info (b ∷ bs) m = add_error_info (b ∷ bs) m

-- `sendError` and `sendUDPError`: an empty text adds no attribute.
unfoldable pub send_error :
    Env → Carrier → (session : ℕ) → (req : Message) → (code : ℕ) → ErrorText → Server → Server
unfolding send
send_error env c p req code t s =
    send p (with_info (env.text t) (add_error_code code (response c Primitive.error req))) s

abbrev pub is_udp : ℕ → Server → Bool
is_udp p s = elim (lookup p s.objects) [
  | some sess ↦ elim sess.carrier [ udp ↦ true | tcp ↦ false ]
  | none ↦ false
]

abbrev pub is_except : Option ℕ → ℕ → Bool
is_except none p = false
is_except (some q) p = q == p

abbrev pub skips : (only_udp : Bool) → (except : Option ℕ) → ℕ → Server → Bool
skips only_udp except p s = is_except except p || (only_udp && not (is_udp p s))

-- One notification, under a new transaction ID.
unfoldable pub notify : (user_id floor_id request_id status : ℕ) → (session : ℕ) → Server → Server
unfolding send take_tx_id
notify u fid rid status p s =
    let (s', tx) = take_tx_id s in
    send p
      (add_floor_request_information rid status fid
        (new_message Primitive.floor_request_status s.config.conference_id tx u))
      s'

-- The loop over the sessions: `only_udp` is that of `broadcastFloorStatusUDP`.
unfoldable pub broadcast_to :
    (only_udp : Bool)
    → (except : Option ℕ) → (user_id floor_id request_id status : ℕ) → List (ℕ × ℕ)
    → Server
    → Server
broadcast_to only_udp except u fid rid status [] s = s
broadcast_to only_udp except u fid rid status ((addr, p) ∷ rest) s =
    broadcast_to only_udp except u fid rid status rest
      (if skips only_udp except p s then s else notify u fid rid status p s)

-- `broadcastFloorStatusUDP` and `broadcastFloorStatus`.
unfoldable pub broadcast_floor_status :
    (only_udp : Bool)
    → (except : Option ℕ) → (user_id floor_id request_id status : ℕ) → Server
    → Server
unfolding broadcast_to notify
broadcast_floor_status only_udp except u fid rid status s =
    broadcast_to only_udp except u fid rid status s.sessions s
