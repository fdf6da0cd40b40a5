-- ===== src/Client/Calls.antt =====
-- The calls of client.go: `Connect`, `Disconnect`, `Hello`, `RequestFloor`, `ReleaseFloor`, `QueryFloor`
-- and `Goodbye`. A script says whether the transport takes the message, and what happens while the
-- client waits for the response; at the end of what it says, the five seconds are over. The `select`
-- takes a response as soon as it is in the channel. `now` is the time of the response.
use bfcp.Base.{
  ℕ, ◌==◌, ◌||◌, not, if◌then◌else◌, ltb, Bool, true, Option, none, some, List, [], ◌∷◌, nat_eq,
}
use bfcp.Base.Dict.{lookup, insert, remove}
use bfcp.Base.Result.{Result, ok, err}
use bfcp.Types.AttributeType
use bfcp.Types.Primitive
use bfcp.Types.RequestStatus
use bfcp.Session.{connected, wait_floor_request, floor_requested, floor_granted, floor_released}
use bfcp.Message.{
  Message, new_message, add_floor_id, add_floor_request_id, add_beneficiary_id, add_priority,
  add_supported_primitives, add_supported_attributes,
}
use bfcp.Message.Fields.{get_floor_request_id, get_request_status, get_error_code, get_error_info}
use bfcp.Client.{
  ActiveFloorRequest, Client, sent, transport_closed, on_connected, on_floor_granted,
  on_floor_released, emit, set_state, next_transaction_id, handle_message, connection_closed,
}

pub data Happening : Type 0 where
  received : (now : ℕ) → Message → Happening
  hangs_up : Happening

pub record Script : Type 0 where
  pub sends : Bool
  pub meanwhile : List Happening

pub data CallError : Type 0 where
  not_connected already_connected dial_failed send_failed timeout : CallError
  missing_request_id missing_status : CallError
  refused : (code : Option ℕ) → (info : Option (List ℕ)) → CallError
  unexpected : (primitive : ℕ) → CallError
  no_active_request : (floor : ℕ) → CallError

abbrev pub slot : (tx : ℕ) → Client → Option Message
slot tx c = elim (lookup tx c.pending_responses) [ some o ↦ o | none ↦ none ]

abbrev pub or_else :
    Option Message → Client × Result CallError Message → Client → Client × Result CallError Message
or_else (some response) later c = (c, ok response)
or_else none later c = later

unfoldable pub wait_for : (tx : ℕ) → List Happening → Client → Client × Result CallError Message
wait_for tx [] c = (c, err timeout)
wait_for tx (hangs_up ∷ later) c = wait_for tx later (connection_closed c)
wait_for tx (received now m ∷ later) c =
    let c' = handle_message now m c in or_else (slot tx c') (wait_for tx later c') c'

abbrev pub open_response : (tx : ℕ) → Client → Client
open_response tx c = record c { pending_responses = insert tx none c.pending_responses }

-- The deferred call, whatever came of it.
abbrev pub close_response :
    (tx : ℕ) → Client × Result CallError Message → Client × Result CallError Message
close_response tx (c, r) = (record c { pending_responses = remove tx c.pending_responses }, r)

unfoldable pub send_and_wait : Script → Message → Client → Client × Result CallError Message
unfolding wait_for
send_and_wait script m c0 =
    let c = open_response m.transaction_id c0 in
    close_response m.transaction_id (
      if script.sends
      then wait_for m.transaction_id script.meanwhile (emit (sent m) c)
      else (c, err send_failed))

-- A request of the client's.
abbrev pub request_message : (primitive tx : ℕ) → Client → Message
request_message prim tx c = new_message prim c.config.conference_id tx c.config.user_id

-- `Connect`: `dials` tells whether the connection is made.
unfoldable pub connect : (dials : Bool) → Client → Client × Result CallError (Unit {0})
connect dials c =
    if c.is_connected
    then (c, err already_connected)
    else if dials
    then (emit on_connected (record (set_state connected c) { is_connected = true }), ok tt)
    else (c, err dial_failed)

abbrev pub supported_primitives : List ℕ
supported_primitives =
    Primitive.floor_request ∷ Primitive.floor_release ∷ Primitive.floor_request_query
    ∷ Primitive.floor_request_status ∷ Primitive.floor_status ∷ Primitive.hello
    ∷ Primitive.hello_ack ∷ Primitive.error ∷ Primitive.goodbye ∷ Primitive.goodbye_ack ∷ []

abbrev pub supported_attributes : List ℕ
supported_attributes =
    AttributeType.beneficiary_id ∷ AttributeType.floor_id ∷ AttributeType.floor_request_id
    ∷ AttributeType.priority ∷ AttributeType.request_status ∷ AttributeType.error_code
    ∷ AttributeType.error_info ∷ AttributeType.supported_attributes
    ∷ AttributeType.supported_primitives ∷ []

abbrev pub hello_message : (tx : ℕ) → Client → Message
hello_message tx c =
    add_supported_attributes supported_attributes
      (add_supported_primitives supported_primitives (request_message Primitive.hello tx c))

abbrev pub after_hello : Client × Result CallError Message → Client × Result CallError (Unit {0})
after_hello (c, err e) = (c, err e)
after_hello (c, ok m) =
    if not (m.primitive == Primitive.hello_ack)
    then (c, err (unexpected m.primitive))
    else (set_state wait_floor_request c, ok tt)

-- A call under a new transaction ID, when the client is connected.
abbrev pub exchange :
    Script → (build : ℕ → Client → Message) → Client → Client × Result CallError Message
exchange script build c =
    if not c.is_connected
    then (c, err not_connected)
    else let (c', tx) = next_transaction_id c in send_and_wait script (build tx c') c'

unfoldable pub hello : Script → Client → Client × Result CallError (Unit {0})
unfolding send_and_wait next_transaction_id
hello script c = after_hello (exchange script hello_message c)

-- The attributes for the beneficiary and the priority are left out when they are 0.
abbrev pub floor_request_message : (fid beneficiary priority tx : ℕ) → Client → Message
floor_request_message fid b p tx c =
    let m = add_floor_id fid (request_message Primitive.floor_request tx c) in
    let m' = if ltb 0 b then add_beneficiary_id b m else m in
    if ltb 0 p then add_priority p m' else m'

abbrev pub requested : (now fid beneficiary priority rid status : ℕ) → ActiveFloorRequest
requested now fid b p rid s = record {
  floor_id = fid;
  floor_request_id = rid;
  beneficiary_id = b;
  priority = p;
  status = s;
  requested_at = now;
  granted_at = if s == RequestStatus.granted then now else 0;
}

abbrev pub told : (fid rid status : ℕ) → Client → Client
told fid rid s c =
    if s == RequestStatus.granted
    then emit (on_floor_granted fid rid) (set_state floor_granted c)
    else if (s == RequestStatus.pending) || (s == RequestStatus.accepted)
    then set_state floor_requested c
    else c

abbrev pub take_status :
    (now fid beneficiary priority : ℕ)
    → Option ℕ
    → Option (ℕ × ℕ)
    → Client
    → Client × Result CallError ℕ
take_status now fid b p none o c = (c, err missing_request_id)
take_status now fid b p (some rid) none c = (c, err missing_status)
take_status now fid b p (some rid) (some (s, q)) c = (
  told fid rid s
      (record c { active_requests = insert fid (requested now fid b p rid s) c.active_requests }),
  ok rid,
)

abbrev pub after_request :
    (now fid beneficiary priority : ℕ)
    → Client × Result CallError Message
    → Client × Result CallError ℕ
after_request now fid b p (c, err e) = (c, err e)
after_request now fid b p (c, ok m) =
    if m.primitive == Primitive.error
    then (c, err (refused (get_error_code m) (get_error_info m)))
    else if not (m.primitive == Primitive.floor_request_status)
    then (c, err (unexpected m.primitive))
    else take_status now fid b p (get_floor_request_id m) (get_request_status m) c

unfoldable pub request_floor :
    Script → (now fid beneficiary priority : ℕ) → Client → Client × Result CallError ℕ
unfolding send_and_wait next_transaction_id
request_floor script now fid b p c =
    after_request now fid b p (exchange script (floor_request_message fid b p) c)

abbrev pub release_message : (fid rid tx : ℕ) → Client → Message
release_message fid rid tx c =
    add_floor_request_id rid (add_floor_id fid (request_message Primitive.floor_release tx c))

-- Whatever is not an error releases the floor.
abbrev pub after_release :
    (fid : ℕ) → Client × Result CallError Message → Client × Result CallError (Unit {0})
after_release fid (c, err e) = (c, err e)
after_release fid (c, ok m) =
    if m.primitive == Primitive.error
    then (c, err (refused (get_error_code m) (get_error_info m)))
    else (
      emit (on_floor_released fid)
          (set_state floor_released (record c { active_requests = remove fid c.active_requests })),
      ok tt,
    )

abbrev pub release_found :
    Script → (fid : ℕ) → Option ActiveFloorRequest → Client → Client × Result CallError (Unit {0})
release_found script fid none c = (c, err (no_active_request fid))
release_found script fid (some req) c =
    after_release fid (exchange script (release_message fid req.floor_request_id) c)

unfoldable pub release_floor : Script → (fid : ℕ) → Client → Client × Result CallError (Unit {0})
unfolding send_and_wait next_transaction_id
release_floor script fid c =
    if not c.is_connected
    then (c, err not_connected)
    else release_found script fid (lookup fid c.active_requests) c

abbrev pub query_message : (fid tx : ℕ) → Client → Message
query_message fid tx c = add_floor_id fid (request_message Primitive.floor_query tx c)

unfoldable pub query_floor : Script → (fid : ℕ) → Client → Client × Result CallError Message
unfolding send_and_wait next_transaction_id
query_floor script fid c = exchange script (query_message fid) c

-- `Goodbye` waits for no response.
unfoldable pub goodbye : (sends : Bool) → Client → Client × Result CallError (Unit {0})
unfolding next_transaction_id
goodbye sends c0 =
    let (c, tx) = next_transaction_id c0 in
    if not c0.is_connected
    then (c0, err not_connected)
    else if sends
    then (emit (sent (request_message Primitive.goodbye tx c)) c, ok tt)
    else (c, err send_failed)

-- `Disconnect`: the read loop of the transport then calls `OnClose`, which is `connection_closed`.
unfoldable pub disconnect : (sends : Bool) → Client → Client
unfolding goodbye
disconnect sends c = if not c.is_connected then c else emit transport_closed (goodbye sends c).0
