-- ===== src/Virtual/Client.antt =====
-- `Client` of virtual/client.go over the client of client.go. What its hooks give to `Callbacks` is an
-- event at the end of the log; the errors' texts are left out. The lock `mu` matters where a call
-- holds it while a hook wants it.
pub mod Disconnect
pub mod Close
pub mod Blocked
mod Tests
use bfcp.Base.{
  ℕ, ◌==◌, ◌||◌, not, if◌then◌else◌, Bool, true, false, Option, none, some, List, [], ◌∷◌, ◌++◌,
  length, drop, nat_eq,
}
use bfcp.Base.Dict.{lookup, insert, remove}
use bfcp.Base.Result.{Result, ok, err}
use bfcp.Types.Priority
use bfcp.Types.RequestStatus
use bfcp.Message.{Message}
use bfcp.Client.{
  Event, sent, transport_closed, on_connected, on_disconnected, on_floor_granted, on_floor_denied,
  on_floor_released, on_floor_revoked, on_floor_status, on_error, Client,
}
use bfcp.Client.Calls.{Script, received, CallError}
use bfcp.Client.Calls
use bfcp.Client

-- `Information` and `RequestedAt` decide nothing and are left out.
pub record FloorRequest : Type 0 where
  pub request_id : ℕ
  pub floor_id : ℕ
  pub status : ℕ
  pub priority : ℕ
  pub queue_position : ℕ
  pub beneficiary_id : ℕ

pub data Callback : Type 0 where
  connected disconnected failed : Callback
  floor_granted floor_denied floor_released floor_revoked : (floor request : ℕ) → Callback
  floor_status_changed : (floor request status : ℕ) → Callback

-- `has_client` tells whether `Connect` has set `client`.
pub record VirtualClient : Type 0 where
  pub client : Client
  pub has_client : Bool
  pub active_requests : List (ℕ × FloorRequest)
  pub held_floors : List (ℕ × ℕ)
  pub is_closed : Bool
  pub is_connected : Bool
  pub log : List Callback

abbrev pub tell : Callback → VirtualClient → VirtualClient
tell e v = record v { log = v.log ++ (e ∷ []) }

abbrev pub grant_found : (rid : ℕ) → Option FloorRequest → VirtualClient → VirtualClient
grant_found rid none v = v
grant_found rid (some req) v = record v {
  active_requests =
      insert rid (record req { status = RequestStatus.granted; queue_position = 0 })
        v.active_requests;
}

-- A floor that is not held is no matter.
abbrev pub give_up :
    (callback : ℕ → ℕ → Callback) → (fid : ℕ) → (held : Option ℕ) → VirtualClient → VirtualClient
give_up callback fid none v = v
give_up callback fid (some rid) v = tell (callback fid rid) (record v {
  held_floors = remove fid v.held_floors;
  active_requests = remove rid v.active_requests;
})

-- The key that the `range` loop of `OnFloorStatus` stops at, in the order of the list.
abbrev pub request_for : (fid : ℕ) → List (ℕ × FloorRequest) → ℕ
request_for fid [] = 0
request_for fid ((rid, req) ∷ rest) = if req.floor_id == fid then rid else request_for fid rest

-- The hooks that `Connect` sets.
unfoldable pub hook : Event → VirtualClient → VirtualClient
hook (sent m) v = v
hook transport_closed v = v
hook on_connected v = tell connected (record v { is_connected = true })
hook on_disconnected v =
    let v' = record v { is_connected = false } in
    if v.is_connected then tell disconnected v' else v'
hook (on_floor_granted fid rid) v = tell (floor_granted fid rid) (
    grant_found rid (lookup rid v.active_requests)
      (record v { held_floors = insert fid rid v.held_floors }))
hook (on_floor_denied fid rid) v =
    tell (floor_denied fid rid) (record v { active_requests = remove rid v.active_requests })
hook (on_floor_revoked fid) v = give_up floor_revoked fid (lookup fid v.held_floors) v
hook (on_floor_released fid) v = give_up floor_released fid (lookup fid v.held_floors) v
hook (on_floor_status fid s) v =
    let rid = request_for fid v.active_requests in
    if rid == 0 then v else tell (floor_status_changed fid rid s) v
hook (on_error code info) v = tell failed v

unfoldable pub hooks : List Event → VirtualClient → VirtualClient
unfolding hook
hooks [] v = v
hooks (e ∷ es) v = hooks es (hook e v)

-- The events of a call: those behind the log that the client had before.
abbrev pub news : (before after : Client) → List Event
news before after = drop (length before.log) after.log

-- A call of the client's without the lock.
abbrev pub through {ℓ} : {A : Type ℓ} → (Client → Client × A) → VirtualClient → VirtualClient × A
through call v =
    let (c, r) = call v.client in (hooks (news v.client c) (record v { client = c }), r)

-- The hooks that lock `mu`.
abbrev pub wants_lock : Event → Bool
wants_lock (on_floor_granted fid rid) = true
wants_lock (on_floor_denied fid rid) = true
wants_lock (on_floor_revoked fid) = true
wants_lock (on_floor_released fid) = true
wants_lock (on_floor_status fid s) = true
wants_lock _ = false

abbrev pub any_wants_lock : List Event → Bool
any_wants_lock [] = false
any_wants_lock (e ∷ es) = wants_lock e || any_wants_lock es

pub data VirtualError : Type 0 where
  client_closed client_not_connected invalid_floor_id invalid_request_id : VirtualError
  request_not_found : VirtualError
  call_failed : CallError → VirtualError

-- `blocked`: the call never returns, because it waits for a hook that waits for the lock that the
-- call holds.
pub data Outcome {ℓ} (A : Type ℓ) : Type ℓ where
  returned : Result VirtualError A → Outcome A
  blocked : Outcome A

pub record RequestOptions : Type 0 where
  pub priority : ℕ
  pub beneficiary_id : ℕ

abbrev pub default_options : RequestOptions
default_options = record { priority = Priority.normal; beneficiary_id = 0 }

-- What the server sends while a call waits: the response at most.
abbrev pub reply_script : (sends : Bool) → (reply : Option (ℕ × Message)) → Script
reply_script sends none = record { sends = sends; meanwhile = [] }
reply_script sends (some (now, m)) = record { sends = sends; meanwhile = received now m ∷ [] }

abbrev pub track : (fid rid : ℕ) → RequestOptions → VirtualClient → VirtualClient
track fid rid o v = record v {
  active_requests =
      insert rid
        (record {
          request_id = rid;
          floor_id = fid;
          status = RequestStatus.pending;
          priority = o.priority;
          queue_position = 0;
          beneficiary_id = o.beneficiary_id;
        })
        v.active_requests;
}

abbrev pub tracked :
    (fid : ℕ) → RequestOptions → VirtualClient × Result CallError ℕ → VirtualClient × Outcome ℕ
tracked fid o (v, ok rid) = (track fid rid o v, returned (ok rid))
tracked fid o (v, err e) = (v, returned (err (call_failed e)))

-- `RequestFloor` holds the lock during the call. Only the response arrives meanwhile.
unfoldable pub request_floor :
    (sends : Bool)
    → (reply : Option (ℕ × Message)) → (now fid : ℕ) → RequestOptions
    → VirtualClient
    → VirtualClient × Outcome ℕ
unfolding hooks
request_floor sends reply now fid o v =
    let call =
      Calls.request_floor (reply_script sends reply) now fid o.beneficiary_id o.priority v.client in
    if v.is_closed
    then (v, returned (err client_closed))
    else if not v.is_connected
    then (v, returned (err client_not_connected))
    else if fid == 0
    then (v, returned (err invalid_floor_id))
    else if any_wants_lock (news v.client call.0)
    then (record v { client = call.0 }, blocked)
    else tracked fid o (hooks (news v.client call.0) (record v { client = call.0 }), call.1)

abbrev pub lift {ℓ} :
    {A : Type ℓ} → VirtualClient × Result CallError A → VirtualClient × Result VirtualError A
lift (v, ok a) = (v, ok a)
lift (v, err e) = (v, err (call_failed e))

abbrev pub release_found :
    Script → Option FloorRequest → VirtualClient → VirtualClient × Result VirtualError (Unit {0})
release_found script none v = (v, err request_not_found)
release_found script (some req) v = lift (through (Calls.release_floor script req.floor_id) v)

-- `ReleaseFloor` gives the lock back before the call.
unfoldable pub release_floor :
    Script → (rid : ℕ) → VirtualClient → VirtualClient × Result VirtualError (Unit {0})
unfolding hooks
release_floor script rid v =
    if v.is_closed
    then (v, err client_closed)
    else if not v.is_connected
    then (v, err client_not_connected)
    else if rid == 0
    then (v, err invalid_request_id)
    else release_found script (lookup rid v.active_requests) v

-- The loop of `ReleaseAllFloors` over the floors that were held; the last error is returned.
abbrev pub release_each :
    (script : ℕ → Script)
    → List (ℕ × ℕ)
    → Result VirtualError (Unit {0})
    → VirtualClient
    → VirtualClient × Result VirtualError (Unit {0})
release_each script [] last v = (v, last)
release_each script ((fid, rid) ∷ rest) last v =
    let (v', r) = lift (through (Calls.release_floor (script fid) fid) v) in
    release_each script rest (elim r [ ok _ ↦ last | err e ↦ err e ]) v'

unfoldable pub release_all_floors :
    (script : ℕ → Script) → VirtualClient → VirtualClient × Result VirtualError (Unit {0})
unfolding hooks
release_all_floors script v =
    if v.is_closed
    then (v, err client_closed)
    else if not v.is_connected
    then (v, err client_not_connected)
    else release_each script v.held_floors (ok tt) v

-- The client's connection is gone: its transport calls `OnClose`.
unfoldable pub connection_closed : VirtualClient → VirtualClient
unfolding hooks
connection_closed v = (through (λ c. (Client.connection_closed c, tt {0})) v).0

-- `Disconnect` of the client, with its hooks. It closes the transport of a client that is connected,
-- and the read loop, which ends with it, calls `OnClose`; here that is the same step.
abbrev pub disconnected_by : (sends : Bool) → VirtualClient → VirtualClient
disconnected_by sends v =
    let v' = (through (λ c. (Calls.disconnect sends c, tt {0})) v).0 in
    if v.client.is_connected then connection_closed v' else v'

unfoldable pub close : (script : ℕ → Script) → (sends : Bool) → VirtualClient → VirtualClient
unfolding release_all_floors hooks connection_closed
close script sends v =
    let v' = record v { is_closed = true } in
    if v.is_closed
    then v
    else if v.has_client
    then disconnected_by sends (release_all_floors script v').0
    else v'

-- The floors of `GetStatus`, and its pending requests.
abbrev pub keys {ℓ} : {A : Type ℓ} → List (ℕ × A) → List ℕ
keys [] = []
keys ((k, a) ∷ rest) = k ∷ keys rest

abbrev pub pending_requests : List (ℕ × FloorRequest) → List ℕ
pending_requests [] = []
pending_requests ((rid, req) ∷ rest) =
    if (req.status == RequestStatus.pending) || (req.status == RequestStatus.accepted)
    then rid ∷ pending_requests rest
    else pending_requests rest
