-- ===== src/Server/Request.antt =====
-- `handleFloorRequest` and `handleUDPFloorRequest` of server.go. Over TCP the handler sleeps
-- between the pending response and the grant, with no lock held; so it is two functions, and any
-- other steps may stand between them.
use bfcp.Base.{ℕ, ◌==◌, not, if◌then◌else◌, Bool, true, false, ◌&&◌, Option, none, some, nat_eq}
use bfcp.Types.AttributeType
use bfcp.Types.ErrorCode
use bfcp.Types.Priority
use bfcp.Types.RequestStatus
use bfcp.Floor.{FloorStateMachine, request, grant, deny}
use bfcp.Session.{set_state, floor_requested, floor_granted, floor_denied}
use bfcp.Message.{Message}
use bfcp.Message.Fields.{get_floor_id, get_word}
use bfcp.Server.{
  Carrier, tcp, udp, Server, Env, no_floor_id, floor_error, on_floor_request, on_floor_granted,
  on_floor_denied, emit, put_floor, get_floor, create_floor, take_tx_id, update_session,
}
use bfcp.Server.Send.{send_floor_status, send_error}

-- The PRIORITY attribute, or the normal priority.
abbrev pub request_priority : Message → ℕ
request_priority m = elim (get_word AttributeType.priority m) [
  | some p ↦ p
  | none ↦ Priority.normal
]

-- The configuration decides, unless the application's hook is set.
abbrev pub decide_grant : Env → (floor_id user_id request_id : ℕ) → Server → Server × Bool
decide_grant env fid u rid s = elim env.decide [
  | some hook ↦ (emit (on_floor_request fid u rid) s, hook fid u rid)
  | none ↦ (s, s.config.auto_grant)
]

-- What both handlers do first: the floor, the request ID and the decision, then `floor.Request`.
-- The beneficiary that the handlers read is not used by them. A refusal is answered here; `some` is the floor ID, the request ID, the decision and the status.
pub record Asked : Type 0 where
  pub floor_id : ℕ
  pub request_id : ℕ
  pub should_grant : Bool
  pub status : ℕ

unfoldable pub refused_or_asked :
    Env
    → Carrier
    → (session : ℕ) → Message
    → (floor_id request_id : ℕ) → FloorStateMachine
    → (Server × Bool)
    → Server × Option Asked
refused_or_asked env c p m fid rid f (s, should_grant) =
    let (f', (status, e)) = request f m.user_id rid (request_priority m) in
    elim e [
      | some err ↦ (
        emit (on_floor_denied fid m.user_id rid)
            (send_error env c p m ErrorCode.unauthorized_operation (floor_error err) s),
        none,
      )
      | none ↦ (
        put_floor fid f' s,
        some (record {
          floor_id = fid;
          request_id = rid;
          should_grant = should_grant;
          status = status;
        }),
      )
    ]

unfoldable pub ask : Env → Carrier → (session : ℕ) → Message → Server → Server × Option Asked
unfolding refused_or_asked request create_floor take_tx_id
ask env c p m s = elim (get_floor_id m) [
  | none ↦ (send_error env c p m ErrorCode.invalid_floor_id no_floor_id s, none)
  | some fid ↦
      let (s1, f) = create_floor env fid s in
      let (s2, rid) = take_tx_id s1 in
      refused_or_asked env c p m fid rid f (decide_grant env fid m.user_id rid s2)
]

-- `floor.Grant()` or `floor.Deny()` on the floor of that ID, and whether it reported no error.
abbrev pub granted : Env → ℕ → Server → Server × Bool
granted env fid s = elim (get_floor fid s) [
  | some f ↦
      let (f', e) = grant env.now f in
      elim e [ none ↦ (put_floor fid f' s, true) | some _ ↦ (s, false) ]
  | none ↦ (s, false)
]

abbrev pub denied : ℕ → Server → Server × Bool
denied fid s = elim (get_floor fid s) [
  | some f ↦
      let (f', e) = deny f in elim e [ none ↦ (put_floor fid f' s, true) | some _ ↦ (s, false) ]
  | none ↦ (s, false)
]

-- The response, the session's state and the hook behind a grant or a denial.
abbrev pub answer_granted :
    Env → Carrier → (session : ℕ) → Message → (floor_id request_id : ℕ) → Server → Server
answer_granted env c p m fid rid s = emit (on_floor_granted fid m.user_id rid) (
    update_session p (set_state env.now floor_granted)
      (send_floor_status c p m fid rid RequestStatus.granted s))

abbrev pub answer_denied :
    Env → Carrier → (session : ℕ) → Message → (floor_id request_id : ℕ) → Server → Server
answer_denied env c p m fid rid s = emit (on_floor_denied fid m.user_id rid) (
    update_session p (set_state env.now floor_denied)
      (send_floor_status c p m fid rid RequestStatus.denied s))

abbrev pub answer_pending : Env → Carrier → (session : ℕ) → Message → Asked → Server → Server
answer_pending env c p m a s =
    update_session p (set_state env.now floor_requested)
      (send_floor_status c p m a.floor_id a.request_id a.status s)

-- Over UDP the decision is in the one response.
unfoldable pub handle_udp_floor_request : Env → (session : ℕ) → Message → Server → Server
unfolding ask get_floor grant deny
handle_udp_floor_request env p m s =
    let (s1, asked) = ask env udp p m s in
    elim asked [
      | none ↦ s1
      | some a ↦
          let (s2, did_grant) = granted env a.floor_id s1 in
          let (s3, did_deny) = denied a.floor_id s1 in
          if a.should_grant && (a.status == RequestStatus.pending) && did_grant
          then answer_granted env udp p m a.floor_id a.request_id s2
          else if not a.should_grant && (a.status == RequestStatus.pending) && did_deny
          then answer_denied env udp p m a.floor_id a.request_id s3
          else answer_pending env udp p m a s1
    ]

-- Over TCP, up to the sleep: `some` is the floor ID and the request ID that the handler keeps
-- while it sleeps.
unfoldable pub begin_floor_request :
    Env → (session : ℕ) → Message → Server → Server × Option (ℕ × ℕ)
unfolding ask get_floor deny
begin_floor_request env p m s =
    let (s1, asked) = ask env tcp p m s in
    elim asked [
      | none ↦ (s1, none)
      | some a ↦
          let s2 = send_floor_status tcp p m a.floor_id a.request_id a.status s1 in
          let (s3, did_deny) = denied a.floor_id s2 in
          if a.should_grant && (a.status == RequestStatus.pending)
          then (s2, some (a.floor_id, a.request_id))
          else if not a.should_grant && (a.status == RequestStatus.pending)
          then (if did_deny then answer_denied env tcp p m a.floor_id a.request_id s3 else s2, none)
          else (update_session p (set_state env.now floor_requested) s2, none)
    ]

-- The floor that the handler keeps a pointer to while it sleeps. It is still the one of the map, or
-- it was deleted meanwhile, and is in some state; another floor may then stand under its ID.
pub data Kept : Type 0 where
  in_map : Kept
  deleted : FloorStateMachine → Kept

abbrev pub granted_kept : Env → Kept → ℕ → Server → Server × Bool
granted_kept env in_map fid s = granted env fid s
granted_kept env (deleted f) fid s =
    let (f', e) = grant env.now f in (s, elim e [ none ↦ true | some _ ↦ false ])

-- Behind the sleep.
unfoldable pub finish_floor_request :
    Env → (session : ℕ) → Message → Kept → (floor_id request_id : ℕ) → Server → Server
unfolding get_floor grant
finish_floor_request env p m kept fid rid s =
    let (s', did_grant) = granted_kept env kept fid s in
    if did_grant then answer_granted env tcp p m fid rid s' else s

-- The handler without anything in between.
unfoldable pub handle_floor_request : Env → (session : ℕ) → Message → Server → Server
unfolding begin_floor_request finish_floor_request
handle_floor_request env p m s =
    let (s', sleeping) = begin_floor_request env p m s in
    elim sleeping [ some (fid, rid) ↦ finish_floor_request env p m in_map fid rid s' | none ↦ s' ]
