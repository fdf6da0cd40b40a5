-- ===== src/Client.antt =====
-- `Client` of client.go: its state, and what it makes of a message from the server. What it gives to
-- the transport or to a hook of the application is an event at the end of the log; the logger only
-- observes.
pub mod Calls
pub mod Runs
pub mod Settled
pub mod Stale
pub mod Exchange
pub mod Response
pub mod Grant
mod Tests
use bfcp.Base.{
  ℕ, ◌+◌, ◌%◌, ◌==◌, ◌&&◌, if◌then◌else◌, Bool, false, Option, none, some, List, [], ◌∷◌, ◌++◌,
  nat_eq,
}
use bfcp.Base.Bytes.{u16}
use bfcp.Base.Dict.{lookup, insert}
use bfcp.Types.Primitive
use bfcp.Types.RequestStatus
use bfcp.Session.{SessionState, disconnected, floor_granted, floor_denied, floor_released}
use bfcp.Message.{Message}
use bfcp.Message.Fields.{
  get_floor_id, get_floor_request_id, get_request_status, get_error_code, get_error_info,
}

-- The zero time is 0.
pub record ActiveFloorRequest : Type 0 where
  pub floor_id : ℕ
  pub floor_request_id : ℕ
  pub beneficiary_id : ℕ
  pub priority : ℕ
  pub status : ℕ
  pub requested_at : ℕ
  pub granted_at : ℕ

pub data Event : Type 0 where
  sent : Message → Event
  transport_closed on_connected on_disconnected : Event
  on_floor_granted on_floor_denied : (floor request : ℕ) → Event
  on_floor_released on_floor_revoked : (floor : ℕ) → Event
  on_floor_status : (floor status : ℕ) → Event
  on_error : (code : Option ℕ) → (info : Option (List ℕ)) → Event

-- The fields of `ClientConfig` that the messages carry.
pub record ClientConfig : Type 0 where
  pub conference_id : ℕ  -- uint32
  pub user_id : ℕ  -- uint16

-- A pending response is the channel for it, which holds one message at most.
pub record Client : Type 0 where
  pub config : ClientConfig
  pub state : SessionState
  pub is_connected : Bool
  pub next_tx_id : ℕ  -- uint32
  pub active_requests : List (ℕ × ActiveFloorRequest)
  pub pending_responses : List (ℕ × Option Message)
  pub log : List Event

unfoldable pub new_client : ClientConfig → Client
new_client config = record {
  config = config;
  state = disconnected;
  is_connected = false;
  next_tx_id = 0;
  active_requests = [];
  pending_responses = [];
  log = [];
}

abbrev pub emit : Event → Client → Client
emit e c = record c { log = c.log ++ (e ∷ []) }

abbrev pub set_state : SessionState → Client → Client
set_state s c = record c { state = s }

-- `uint16(c.nextTxID.Add(1))`.
unfoldable pub next_transaction_id : Client → Client × ℕ
next_transaction_id c =
    let n = (c.next_tx_id + 1) % 4294967296 in (record c { next_tx_id = n }, u16 n)

abbrev pub with_status : (now status : ℕ) → ActiveFloorRequest → ActiveFloorRequest
with_status now s req = record req {
  status = s;
  granted_at =
      if (s == RequestStatus.granted) && (req.granted_at == 0) then now else req.granted_at;
}

abbrev pub put_found : (now fid status : ℕ) → Option ActiveFloorRequest → Client → Client
put_found now fid s none c = c
put_found now fid s (some req) c = record c {
  active_requests = insert fid (with_status now s req) c.active_requests;
}

abbrev pub tell_status : (fid rid status : ℕ) → Client → Client
tell_status fid rid s c =
    if s == RequestStatus.granted
    then emit (on_floor_granted fid rid) (set_state floor_granted c)
    else if s == RequestStatus.denied
    then emit (on_floor_denied fid rid) (set_state floor_denied c)
    else if s == RequestStatus.released
    then emit (on_floor_released fid) (set_state floor_released c)
    else if s == RequestStatus.revoked
    then emit (on_floor_revoked fid) (set_state floor_released c)
    else c

abbrev pub or_zero : Option ℕ → ℕ
or_zero (some n) = n
or_zero none = 0

-- A message without a floor or a status is only logged; a missing request ID is 0.
abbrev pub status_update : (now : ℕ) → Option ℕ → (rid : ℕ) → Option (ℕ × ℕ) → Client → Client
status_update now none rid status c = c
status_update now (some fid) rid none c = c
status_update now (some fid) rid (some (s, q)) c =
    tell_status fid rid s (put_found now fid s (lookup fid c.active_requests) c)

unfoldable pub handle_floor_request_status : (now : ℕ) → Message → Client → Client
handle_floor_request_status now m c =
    status_update now (get_floor_id m) (or_zero (get_floor_request_id m)) (get_request_status m) c

abbrev pub status_seen : Option ℕ → Option (ℕ × ℕ) → Client → Client
status_seen none status c = c
status_seen (some fid) none c = c
status_seen (some fid) (some (s, q)) c = emit (on_floor_status fid s) c

unfoldable pub handle_floor_status : Message → Client → Client
handle_floor_status m c = status_seen (get_floor_id m) (get_request_status m) c

unfoldable pub handle_error : Message → Client → Client
handle_error m c = emit (on_error (get_error_code m) (get_error_info m)) c

-- The `switch` of `handleMessage`. Anything else is only logged.
unfoldable pub handle_unsolicited : (now : ℕ) → Message → Client → Client
unfolding handle_floor_request_status handle_floor_status handle_error
handle_unsolicited now m c =
    if m.primitive == Primitive.floor_request_status
    then handle_floor_request_status now m c
    else if m.primitive == Primitive.floor_status
    then handle_floor_status m c
    else if m.primitive == Primitive.error
    then handle_error m c
    else c

-- A channel that is full does not take the message: it goes on to the `switch`.
abbrev pub route : (now : ℕ) → Option (Option Message) → Message → Client → Client
route now (some none) m c = record c {
  pending_responses = insert m.transaction_id (some m) c.pending_responses;
}
route now (some (some r)) m c = handle_unsolicited now m c
route now none m c = handle_unsolicited now m c

unfoldable pub handle_message : (now : ℕ) → Message → Client → Client
unfolding handle_unsolicited
handle_message now m c = route now (lookup m.transaction_id c.pending_responses) m c

-- `OnClose` of the transport.
unfoldable pub connection_closed : Client → Client
connection_closed c =
    emit on_disconnected (set_state disconnected (record c { is_connected = false }))
