-- ===== src/Server/Release.antt =====
-- The handlers of server.go for FloorRelease, FloorQuery and Goodbye, and the functions that an
-- application calls. The TCP and the UDP handler differ in the functions that send.
use bfcp.Base.{ℕ, ◌==◌, if◌then◌else◌, Bool, true, false, Option, none, some, List, [], ◌∷◌, nat_eq}
use bfcp.Types.ErrorCode
use bfcp.Types.Primitive
use bfcp.Types.RequestStatus
use bfcp.Floor.{FloorStateMachine, FloorError, release, grant}
use bfcp.Session.{set_state, floor_released, disconnected}
use bfcp.Message.{Message, add_floor_id, add_floor_request_id, add_request_status}
use bfcp.Message.Fields.{get_floor_id, get_floor_request_id}
use bfcp.Server.{
  Carrier, tcp, udp, Server, Env, ErrorText, missing_request_id, missing_floor_id,
  floor_does_not_exist, request_id_does_not_exist, floor_error, closed, on_floor_released, emit,
  put_floor, get_floor, get_floor_by_request_id, floor_owned_by, update_session,
}
use bfcp.Server.Send.{send, response, send_floor_status, send_error, broadcast_floor_status}

-- The floor that a FloorRelease names: by FLOOR-ID, else by FLOOR-REQUEST-ID, else the floor that
-- the user owns; or the error that is sent.
pub data Target : Type 0 where
  target : (floor_id : ℕ) → FloorStateMachine → Target
  failure : (code : ℕ) → ErrorText → Target

abbrev pub by_owner : (user_id request_id : ℕ) → Server → Target
by_owner u rid s = elim (floor_owned_by u s) [
  | some (fid, f) ↦ target fid f
  | none ↦ failure ErrorCode.floor_request_id_does_not_exist (request_id_does_not_exist rid)
]

unfoldable pub find_target : Message → Server → Target
unfolding get_floor get_floor_by_request_id floor_owned_by
find_target m s = elim (get_floor_id m) [
  | some fid ↦ elim (get_floor fid s) [
    | some f ↦ target fid f
    | none ↦ failure ErrorCode.invalid_floor_id (floor_does_not_exist fid)
  ]
  | none ↦ elim (get_floor_request_id m) [
    | some rid ↦ elim (get_floor_by_request_id rid s) [
      | some (fid, f) ↦ target fid f
      | none ↦ by_owner m.user_id rid s
    ]
    | none ↦ failure ErrorCode.unknown_mandatory_attribute missing_request_id
  ]
]

abbrev pub or_zero : Option ℕ → ℕ
or_zero (some n) = n
or_zero none = 0

abbrev pub only_udp : Carrier → Bool
only_udp udp = true
only_udp tcp = false

-- What follows a successful `floor.Release`.
abbrev pub released : Env → Carrier → (session : ℕ) → Message → (floor_id : ℕ) → Server → Server
released env c p m fid s =
    let rid = or_zero (get_floor_request_id m) in
    broadcast_floor_status (only_udp c) (some p) m.user_id fid rid RequestStatus.released (
      emit (on_floor_released fid m.user_id) (
        update_session p (set_state env.now floor_released)
          (send_floor_status c p m fid rid RequestStatus.released s)))

unfoldable pub release_target : Env → Carrier → (session : ℕ) → Message → Target → Server → Server
unfolding release
release_target env c p m (failure code text) s = send_error env c p m code text s
release_target env c p m (target fid f) s =
    let (f', e) = release m.user_id f in
    elim e [
      | some err ↦ send_error env c p m ErrorCode.floor_release_denied (floor_error err) s
      | none ↦ released env c p m fid (put_floor fid f' s)
    ]

unfoldable pub floor_release : Env → Carrier → (session : ℕ) → Message → Server → Server
unfolding find_target release_target
floor_release env c p m s = release_target env c p m (find_target m s) s

unfoldable pub handle_floor_release : Env → (session : ℕ) → Message → Server → Server
unfolding floor_release
handle_floor_release env p m s = floor_release env tcp p m s

unfoldable pub handle_udp_floor_release : Env → (session : ℕ) → Message → Server → Server
unfolding floor_release
handle_udp_floor_release env p m s = floor_release env udp p m s

-- FloorStatus with FLOOR-ID, FLOOR-REQUEST-ID and REQUEST-STATUS.
abbrev pub query_answer : Carrier → Message → (floor_id : ℕ) → FloorStateMachine → Message
query_answer c m fid f = add_request_status f.current_state 0 (
    add_floor_request_id f.floor_request_id
      (add_floor_id fid (response c Primitive.floor_status m)))

unfoldable pub floor_query : Env → Carrier → (session : ℕ) → Message → Server → Server
unfolding get_floor
floor_query env c p m s = elim (get_floor_id m) [
  | none ↦ send_error env c p m ErrorCode.unknown_mandatory_attribute missing_floor_id s
  | some fid ↦ elim (get_floor fid s) [
    | none ↦ send_error env c p m ErrorCode.invalid_floor_id (floor_does_not_exist fid) s
    | some f ↦ send p (query_answer c m fid f) s
  ]
]

unfoldable pub handle_floor_query : Env → (session : ℕ) → Message → Server → Server
unfolding floor_query
handle_floor_query env p m s = floor_query env tcp p m s

unfoldable pub handle_udp_floor_query : Env → (session : ℕ) → Message → Server → Server
unfolding floor_query
handle_udp_floor_query env p m s = floor_query env udp p m s

-- The floors that a Goodbye releases: those whose owner is its user, whatever their state.
abbrev pub owned_floors : (user_id : ℕ) → List (ℕ × FloorStateMachine) → List ℕ
owned_floors u [] = []
owned_floors u ((id, f) ∷ fs) =
    if f.owner_user_id == u then id ∷ owned_floors u fs else owned_floors u fs

-- The loop over them. The request ID is read behind the release.
unfoldable pub release_floors : Carrier → (session : ℕ) → Message → List ℕ → Server → Server
unfolding get_floor release
release_floors c p m [] s = s
release_floors c p m (fid ∷ fids) s = release_floors c p m fids (elim (get_floor fid s) [
  | none ↦ s
  | some f ↦
      let (f', e) = release m.user_id f in
      elim e [
        | some _ ↦ s
        | none ↦ emit (on_floor_released fid m.user_id) (
            broadcast_floor_status (only_udp c) (some p) m.user_id fid f'.floor_request_id
              RequestStatus.released (put_floor fid f' s))
      ]
])

-- Over UDP a Goodbye is not answered, and the session stays.
unfoldable pub handle_udp_goodbye : (session : ℕ) → Message → Server → Server
unfolding release_floors
handle_udp_goodbye p m s = release_floors udp p m (owned_floors m.user_id s.floors) s

unfoldable pub handle_goodbye : Env → (session : ℕ) → Message → Server → Server
unfolding release_floors send
handle_goodbye env p m s = emit (closed p) (
    update_session p (set_state env.now disconnected) (
      send p (response tcp Primitive.goodbye_ack m)
        (release_floors tcp p m (owned_floors m.user_id s.floors) s)))

-- `GrantFloor`: no message is sent. `none` is the error for a floor that does not exist.
unfoldable pub grant_floor : Env → (floor_id : ℕ) → Server → Server × Option (Option FloorError)
unfolding get_floor grant
grant_floor env fid s = elim (get_floor fid s) [
  | none ↦ (s, none)
  | some f ↦ let (f', e) = grant env.now f in (put_floor fid f' s, some e)
]
