-- ===== src/UdpClient.antt =====
-- `UDPClient` of udpclient.go: its state, and what it makes of a message from the server. What it
-- gives to the socket, to a timer or to a hook of the application is an event at the end of the log.
-- The logger and the hook `OnMessageOut` only observe.
pub mod Transact
pub mod Calls
pub mod Steps
pub mod CallSteps
pub mod Runs
pub mod Words
pub mod Safety
pub mod Kept
pub mod Waiting
pub mod Idle
pub mod Retry
pub mod Association
pub mod TransactionIds
pub mod Acks
mod Tests
use bfcp.Base.{
  ℕ, ◌+◌, ◌%◌, ◌==◌, not, ◌&&◌, ◌||◌, if◌then◌else◌, Bool, true, false, Option, none, some, List,
  [], ◌∷◌, ◌++◌, nat_eq,
}
use bfcp.Base.Bytes.{u16}
use bfcp.Base.Dict.{lookup, insert, remove}
use bfcp.Base.Result.{Result, ok, err}
use bfcp.Types.Primitive
use bfcp.Types.Protocol
use bfcp.Types.RequestStatus
use bfcp.Message.{Message, new_message, set_response}
use bfcp.Message.Grouped.{FloorRequestInfo, FloorRequestStatusInfo, floor_request_infos, status_of}
use bfcp.Message.Fields.{get_floor_id, get_error_code, get_error_info}
use bfcp.Transport.Udp.{UdpTransport, SendError, send_message, new_udp_transport}
use bfcp.Client.{ActiveFloorRequest}

-- A duration is in nanoseconds. A setting that is not positive is 0.
pub record UdpClientConfig : Type 0 where
  pub remote_addr : ℕ
  pub conference_id : ℕ  -- uint32
  pub user_id : ℕ  -- uint16
  pub version : ℕ  -- uint8
  pub t1 : ℕ
  pub max_retries : ℕ

pub data Event : Type 0 where
  sent : Message → Event
  timer : (wait : ℕ) → Event
  on_floor_granted on_floor_denied : (floor request : ℕ) → Event
  on_floor_released : (floor : ℕ) → Event
  on_floor_status : (floor beneficiary status : ℕ) → Event
  on_error : (code : Option ℕ) → (info : Option (List ℕ)) → Event

-- A pending transaction is the channel that takes its response, which holds one message at most.
pub record UdpClient : Type 0 where
  pub config : UdpClientConfig
  pub transport : UdpTransport
  pub next_tx_id : ℕ  -- uint32
  pub is_closed : Bool
  pub pending : List (ℕ × Option Message)
  pub active_requests : List (ℕ × ActiveFloorRequest)
  pub log : List Event

abbrev or_default : (default : ℕ) → ℕ → ℕ
or_default default n = if n == 0 then default else n

abbrev pub with_defaults : UdpClientConfig → UdpClientConfig
with_defaults config = record config {
  version = or_default Protocol.version_rfc8855 config.version;
  t1 = or_default 500000000 config.t1;
  max_retries = or_default 4 config.max_retries;
}

-- `NewUDPClient`: the transport is the listener's for the address.
unfoldable pub new_udp_client : UdpClientConfig → UdpTransport → UdpClient
new_udp_client config transport = record {
  config = with_defaults config;
  transport = transport;
  next_tx_id = 0;
  is_closed = false;
  pending = [];
  active_requests = [];
  log = [];
}

-- What a step takes from outside: the clock, and whether the socket takes a datagram.
pub record Env : Type 0 where
  pub now : ℕ
  pub writes : Bool

abbrev pub emit : Event → UdpClient → UdpClient
emit e c = record c { log = c.log ++ (e ∷ []) }

-- `uint16(c.nextTxID.Add(1))`, once more if that is 0.
unfoldable pub next_transaction_id : UdpClient → UdpClient × ℕ
next_transaction_id c =
    let n = (c.next_tx_id + 1) % 4294967296 in
    let n' = if u16 n == 0 then (n + 1) % 4294967296 else n in
    (record c { next_tx_id = n' }, u16 n')

abbrev pub versioned : Message → UdpClient → Message
versioned m c = record m { version = c.config.version }

abbrev pub sent_by :
    UdpClient → Message → Result SendError (ℕ × List ℕ) → Result SendError UdpClient
sent_by c m (ok _) = ok (emit (sent m) c)
sent_by c m (err e) = err e

unfoldable pub send : (writes : Bool) → Message → UdpClient → Result SendError UdpClient
unfolding send_message
send writes m c = sent_by c (versioned m c) (send_message writes (versioned m c) c.transport)

-- `ack`: a failure is only logged.
abbrev pub acknowledgement : Message → (primitive : ℕ) → UdpClient → Message
acknowledgement m prim c =
    set_response true (new_message prim m.conference_id m.transaction_id c.config.user_id)

abbrev pub or_same : UdpClient → Result SendError UdpClient → UdpClient
or_same c (ok c') = c'
or_same c (err _) = c

unfoldable pub ack : Env → Message → (primitive : ℕ) → UdpClient → UdpClient
unfolding send
ack env m prim c = or_same c (send env.writes (acknowledgement m prim c) c)

abbrev pub is_granted : Option ActiveFloorRequest → Bool
is_granted (some req) = req.status == RequestStatus.granted
is_granted none = false

unfoldable pub has_floor : ℕ → UdpClient → Bool
has_floor fid c = is_granted (lookup fid c.active_requests)

-- The statuses that end a request.
abbrev pub is_final : ℕ → Bool
is_final s =
    (s == RequestStatus.released)
    || (s == RequestStatus.revoked)
    || (s == RequestStatus.denied)
    || (s == RequestStatus.cancelled)

abbrev pub with_status : (now status : ℕ) → ActiveFloorRequest → ActiveFloorRequest
with_status now s req = record req {
  status = s;
  granted_at =
      if (s == RequestStatus.granted) && (req.granted_at == 0) then now else req.granted_at;
}

abbrev pub put_found : (now fid status : ℕ) → Option ActiveFloorRequest → UdpClient → UdpClient
put_found now fid s none c = c
put_found now fid s (some req) c =
    if is_final s
    then record c { active_requests = remove fid c.active_requests }
    else record c { active_requests = insert fid (with_status now s req) c.active_requests }

abbrev pub put_status : (now fid status : ℕ) → UdpClient → UdpClient
put_status now fid s c = put_found now fid s (lookup fid c.active_requests) c

abbrev pub tell_status : (fid rid status : ℕ) → UdpClient → UdpClient
tell_status fid rid s c =
    if s == RequestStatus.granted
    then emit (on_floor_granted fid rid) c
    else if s == RequestStatus.denied
    then emit (on_floor_denied fid rid) c
    else if (s == RequestStatus.released)
        || (s == RequestStatus.revoked)
        || (s == RequestStatus.cancelled)
    then emit (on_floor_released fid) c
    else c

unfoldable pub apply_own_status : (now fid rid status : ℕ) → UdpClient → UdpClient
apply_own_status now fid rid s c = tell_status fid rid s (put_status now fid s c)

unfoldable pub own_request : (fid rid beneficiary : ℕ) → UdpClient → Bool
own_request fid rid b c =
    let is_own = not (b == 0) && (b == c.config.user_id) in
    elim (lookup fid c.active_requests) [
      | some req ↦ (req.floor_request_id == rid) || is_own
      | none ↦ is_own
    ]

-- The loops of `handleNotification`, over the floors of a request and over the requests.
abbrev pub notify_floors :
    (now rid beneficiary status : ℕ) → List FloorRequestStatusInfo → UdpClient → UdpClient
notify_floors now rid b s [] c = c
notify_floors now rid b s (fl ∷ fls) c = notify_floors now rid b s fls (
    if own_request fl.floor_id rid b c
    then apply_own_status now fl.floor_id rid s c
    else emit (on_floor_status fl.floor_id b s) c)

abbrev pub beneficiary_of : FloorRequestInfo → ℕ
beneficiary_of info =
    if not info.has_beneficiary && info.has_requested_by
    then info.requested_by_id
    else info.beneficiary_id

abbrev pub notify_status : (now : ℕ) → FloorRequestInfo → Option ℕ → UdpClient → UdpClient
notify_status now info none c = c
notify_status now info (some s) c =
    notify_floors now info.floor_request_id (beneficiary_of info) s info.floors c

abbrev pub notify_infos : (now : ℕ) → List FloorRequestInfo → UdpClient → UdpClient
notify_infos now [] c = c
notify_infos now (info ∷ infos) c =
    notify_infos now infos (notify_status now info (status_of info) c)

-- A message without requests says that the floor is free.
abbrev pub notify_free : Message → Option ℕ → UdpClient → UdpClient
notify_free m none c = c
notify_free m (some fid) c =
    if m.primitive == Primitive.floor_status
    then emit (on_floor_status fid 0 RequestStatus.released) c
    else c

abbrev pub notify : (now : ℕ) → Message → List FloorRequestInfo → UdpClient → UdpClient
notify now m [] c = notify_free m (get_floor_id m) c
notify now m (info ∷ infos) c = notify_infos now (info ∷ infos) c

unfoldable pub handle_notification : (now : ℕ) → Message → UdpClient → UdpClient
handle_notification now m c = notify now m (floor_request_infos m) c

-- The `switch` of `handleMessage`. Anything else is only logged.
unfoldable pub handle_unsolicited : Env → Message → UdpClient → UdpClient
unfolding handle_notification ack
handle_unsolicited env m c =
    if m.primitive == Primitive.floor_request_status
    then ack env m Primitive.floor_request_status_ack (handle_notification env.now m c)
    else if m.primitive == Primitive.floor_status
    then ack env m Primitive.floor_status_ack (handle_notification env.now m c)
    else if m.primitive == Primitive.goodbye
    then ack env m Primitive.goodbye_ack c
    else if m.primitive == Primitive.error
    then emit (on_error (get_error_code m) (get_error_info m)) c
    else c

-- The channel of a transaction takes the message if it is empty.
abbrev pub deliver : (slot : Option Message) → Message → UdpClient → UdpClient
deliver none m c = record c { pending = insert m.transaction_id (some m) c.pending }
deliver (some _) m c = c

unfoldable pub handle_message : Env → Message → UdpClient → UdpClient
unfolding handle_unsolicited
handle_message env m c = elim (lookup m.transaction_id c.pending) [
  | some slot ↦ deliver slot m c
  | none ↦ handle_unsolicited env m c
]

-- `Close`: the registration with the server is not part of the client.
unfoldable pub close : UdpClient → UdpClient
close c = record c { is_closed = true }
