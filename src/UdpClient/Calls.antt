-- ===== src/UdpClient/Calls.antt =====
-- `Hello`, `RequestFloor`, `ReleaseFloor` and `Goodbye` of udpclient.go: a transaction, and what the
-- response to it leads to. `now` is the time of the response.
use bfcp.Base.{ℕ, ◌==◌, not, if◌then◌else◌, Option, none, some, List, [], ◌∷◌, nat_eq}
use bfcp.Base.Dict.{lookup, insert, remove}
use bfcp.Base.Result.{Result, ok, err}
use bfcp.Types.AttributeType
use bfcp.Types.Primitive
use bfcp.Message.{
  Message, new_message, add_floor_id, add_floor_request_id, add_supported_primitives,
  add_supported_attributes,
}
use bfcp.Message.Fields.{get_floor_request_id, get_request_status, get_error_code, get_error_info}
use bfcp.Client.{ActiveFloorRequest}
use bfcp.UdpClient.{UdpClient, on_floor_released, emit, next_transaction_id, apply_own_status}
use bfcp.UdpClient.Transact.{Attempt, TransactError, transact}

pub data CallError : Type 0 where
  not_transacted : TransactError → CallError
  refused : (code : Option ℕ) → (info : Option (List ℕ)) → CallError
  unexpected : (primitive : ℕ) → CallError
  missing_request_id missing_status : CallError
  no_active_request : (floor : ℕ) → CallError

-- `responseError`.
abbrev pub response_error : Message → CallError
response_error m = refused (get_error_code m) (get_error_info m)

-- A request of the client's, under a new transaction ID.
abbrev pub request_message : (primitive tx : ℕ) → UdpClient → Message
request_message prim tx c = new_message prim c.config.conference_id tx c.config.user_id

abbrev pub supported_primitives : List ℕ
supported_primitives =
    Primitive.floor_request ∷ Primitive.floor_release ∷ Primitive.floor_request_query
    ∷ Primitive.floor_request_status ∷ Primitive.floor_query ∷ Primitive.floor_status
    ∷ Primitive.hello ∷ Primitive.hello_ack ∷ Primitive.error ∷ Primitive.floor_request_status_ack
    ∷ Primitive.floor_status_ack ∷ Primitive.goodbye ∷ Primitive.goodbye_ack ∷ []

abbrev pub supported_attributes : List ℕ
supported_attributes =
    AttributeType.beneficiary_id ∷ AttributeType.floor_id ∷ AttributeType.floor_request_id
    ∷ AttributeType.priority ∷ AttributeType.request_status ∷ AttributeType.error_code
    ∷ AttributeType.error_info ∷ AttributeType.supported_attributes
    ∷ AttributeType.supported_primitives ∷ AttributeType.beneficiary_info
    ∷ AttributeType.floor_request_info ∷ AttributeType.requested_by_info
    ∷ AttributeType.floor_request_status ∷ AttributeType.overall_request_status ∷ []

abbrev pub hello_message : (tx : ℕ) → UdpClient → Message
hello_message tx c =
    add_supported_attributes supported_attributes
      (add_supported_primitives supported_primitives (request_message Primitive.hello tx c))

abbrev pub after_hello :
    UdpClient × Result TransactError Message → UdpClient × Result CallError (Unit {0})
after_hello (c, err e) = (c, err (not_transacted e))
after_hello (c, ok m) =
    if m.primitive == Primitive.error
    then (c, err (response_error m))
    else if not (m.primitive == Primitive.hello_ack)
    then (c, err (unexpected m.primitive))
    else (c, ok tt)

unfoldable pub hello : (script : ℕ → Attempt) → UdpClient → UdpClient × Result CallError (Unit {0})
unfolding next_transaction_id transact
hello script c0 =
    let (c, tx) = next_transaction_id c0 in after_hello (transact script (hello_message tx c) c)

abbrev pub requested : (now fid rid status : ℕ) → UdpClient → ActiveFloorRequest
requested now fid rid s c = record {
  floor_id = fid;
  floor_request_id = rid;
  beneficiary_id = c.config.user_id;
  priority = 0;
  status = s;
  requested_at = now;
  granted_at = 0;
}

abbrev pub add_request : (now fid rid status : ℕ) → UdpClient → UdpClient
add_request now fid rid s c = record c {
  active_requests = insert fid (requested now fid rid s c) c.active_requests;
}

abbrev pub take_status :
    (now fid : ℕ) → Option ℕ → Option (ℕ × ℕ) → UdpClient → UdpClient × Result CallError ℕ
take_status now fid none o c = (c, err missing_request_id)
take_status now fid (some rid) none c = (c, err missing_status)
take_status now fid (some rid) (some (s, _)) c =
    (apply_own_status now fid rid s (add_request now fid rid s c), ok rid)

abbrev pub after_request :
    (now fid : ℕ) → UdpClient × Result TransactError Message → UdpClient × Result CallError ℕ
after_request now fid (c, err e) = (c, err (not_transacted e))
after_request now fid (c, ok m) =
    if m.primitive == Primitive.error
    then (c, err (response_error m))
    else if not (m.primitive == Primitive.floor_request_status)
    then (c, err (unexpected m.primitive))
    else take_status now fid (get_floor_request_id m) (get_request_status m) c

unfoldable pub request_floor :
    (script : ℕ → Attempt) → (now fid : ℕ) → UdpClient → UdpClient × Result CallError ℕ
unfolding next_transaction_id transact
request_floor script now fid c0 =
    let (c, tx) = next_transaction_id c0 in
    after_request now fid
      (transact script (add_floor_id fid (request_message Primitive.floor_request tx c)) c)

abbrev pub forget_request : (fid : ℕ) → UdpClient → UdpClient
forget_request fid c =
    emit (on_floor_released fid) (record c { active_requests = remove fid c.active_requests })

-- Whatever is not an error releases the floor.
abbrev pub after_release :
    (fid : ℕ) → UdpClient × Result TransactError Message → UdpClient × Result CallError (Unit {0})
after_release fid (c, err e) = (c, err (not_transacted e))
after_release fid (c, ok m) =
    if m.primitive == Primitive.error
    then (c, err (response_error m))
    else (forget_request fid c, ok tt)

unfoldable pub release_floor :
    (script : ℕ → Attempt) → (fid : ℕ) → UdpClient → UdpClient × Result CallError (Unit {0})
unfolding next_transaction_id transact
release_floor script fid c0 = elim (lookup fid c0.active_requests) [
  | none ↦ (c0, err (no_active_request fid))
  | some req ↦
      let (c, tx) = next_transaction_id c0 in
      after_release fid (
        transact script
          (add_floor_request_id req.floor_request_id (request_message Primitive.floor_release tx c))
          c)
]

-- `Goodbye` ignores what came of it.
unfoldable pub goodbye : (script : ℕ → Attempt) → UdpClient → UdpClient
unfolding next_transaction_id transact
goodbye script c0 =
    let (c, tx) = next_transaction_id c0 in
    (transact script (request_message Primitive.goodbye tx c) c).0
