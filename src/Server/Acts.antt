-- ===== src/Server/Acts.antt =====
-- Every handler changes the floors only by calls on behalf of the message's user.
pub mod Release
pub mod Dispatch
use bfcp.Base.{
  ℕ, ◌==◌, if◌then◌else◌, Bool, Bool-cases, true, false, not, ◌&&◌, Option, Option-cases, none,
  some, ◌≡◌, refl, sym, ap, ◌∙◌, inl, inr, List, [], ◌∷◌, nat_eq, ==_refl, subst, arith,
}
use bfcp.Base.Dict.{lookup, insert}
use bfcp.Types.RequestStatus
use bfcp.Types.ErrorCode
use bfcp.Floor.{
  FloorStateMachine, FloorError, Op, apply, do_request, do_grant, do_deny, do_release, request,
  grant, deny, release,
}
use bfcp.Session.{set_state, floor_requested}
use bfcp.Message.{Message}
use bfcp.Message.Fields.{get_floor_id, get_floor_request_id}
use bfcp.Server.{
  Carrier, tcp, udp, Server, Env, floor_error, no_floor_id, get_floor, create_floor, take_tx_id,
  put_floor, update_session,
}
use bfcp.Server.Send.{send, send_floor_status, send_error, broadcast_floor_status}
use bfcp.Server.Frame.{
  send-floors, send_floor_status-floors, send_error-floors, update_session-floors,
  take_tx_id-floors, broadcast_floor_status-floors,
}
use bfcp.Server.Evolve.{Floors, Evolve, stay, create, act, Evolve-trans, ByUser, lookup-insert_eq}
use bfcp.Server.Request.{
  ask, refused_or_asked, decide_grant, request_priority, granted, denied, answer_granted,
  answer_denied, answer_pending, Asked, handle_udp_floor_request, begin_floor_request,
  finish_floor_request, handle_floor_request, Kept, in_map, deleted, granted_kept,
}

-- The floors of `t` come from those of `s` by calls on behalf of `u`.
abbrev pub Acts : (user_id : ℕ) → Server → Server → Type 0
Acts u s t = Evolve (ByUser u) s.floors t.floors

pub quiet : {u : ℕ} {fs gs : Floors} → gs ≡ fs → Evolve (ByUser u) fs gs
quiet {u} {fs} e = subst (Evolve (ByUser u) fs) (sym e) stay

pub after :
    {u : ℕ} {fs gs hs : Floors} → hs ≡ gs → Evolve (ByUser u) fs gs → Evolve (ByUser u) fs hs
after {u} {fs} e a = subst (Evolve (ByUser u) fs) (sym e) a

-- What both branches of a conditional do.
pub branch :
    (u : ℕ) (s : Server) (b : Bool) (t t' : Server)
    → Acts u s t
    → Acts u s t'
    → Acts u s (if b then t else t')
branch u s true t t' p q = p
branch u s false t t' p q = q

pub create_floor-Acts :
    (env : Env) (u id : ℕ) (s : Server)
    → Acts u s (create_floor env id s).0
      × (lookup id (create_floor env id s).0.floors ≡ some (create_floor env id s).1)
unfolding create_floor
create_floor-Acts env u id s = elim (Option-cases (lookup id s.floors)) [
  | inr (f, e) ↦ rw (e, create_floor) (stay, e)
  | inl e ↦
      rw (e, create_floor)
        (
          create env.now id s.config.conference_id stay e,
          lookup-insert_eq id id _ s.floors (==_refl id),
        )
]

granted-Acts : (env : Env) (u fid : ℕ) (s : Server) → Acts u s (granted env fid s).0
unfolding get_floor apply grant
granted-Acts env u fid s = elim (Option-cases (lookup fid s.floors)) [
  | inl e ↦ rw (e, granted) stay
  | inr (f, e) ↦ elim (Bool-cases (f.current_state == RequestStatus.pending)) [
    | inl p ↦ rw (e, granted) (rw p (act (do_grant env.now) fid f stay tt e))
    | inr p ↦ rw (e, granted) (rw p stay)
  ]
]

denied-Acts : (u fid : ℕ) (s : Server) → Acts u s (denied fid s).0
unfolding get_floor apply deny
denied-Acts u fid s = elim (Option-cases (lookup fid s.floors)) [
  | inl e ↦ rw (e, denied) stay
  | inr (f, e) ↦ elim (Bool-cases (f.current_state == RequestStatus.pending)) [
    | inl p ↦ rw (e, denied) (rw p (act do_deny fid f stay tt e))
    | inr p ↦ rw (e, denied) (rw p stay)
  ]
]

decide_grant-floors :
    (env : Env) (fid u rid : ℕ) (s : Server) → (decide_grant env fid u rid s).0.floors ≡ s.floors
decide_grant-floors env fid u rid s = ground arith

refused_or_asked-Acts :
    (env : Env) (c : Carrier) (p : ℕ) (m : Message) (fid rid : ℕ) (f : FloorStateMachine)
    (s : Server) (b : Bool)
    → lookup fid s.floors ≡ some f
    → Acts m.user_id s (refused_or_asked env c p m fid rid f (s, b)).0
unfolding refused_or_asked apply
refused_or_asked-Acts env c p m fid rid f s b e =
    let prio = request_priority m in
    elim (Option-cases (request f m.user_id rid prio).1.1) [
      | inl x ↦ rw (x, refused_or_asked) (act (do_request m.user_id rid prio) fid f stay refl e)
      | inr (err, x) ↦
          rw (x, refused_or_asked)
            (quiet
              (send_error-floors env c p m ErrorCode.unauthorized_operation (floor_error err) s))
    ]

pub ask-Acts :
    (env : Env) (c : Carrier) (p : ℕ) (m : Message) (s : Server)
    → Acts m.user_id s (ask env c p m s).0
unfolding ask
ask-Acts env c p m s = elim (Option-cases (get_floor_id m)) [
  | inl x ↦
      rw (x, ask) (quiet (send_error-floors env c p m ErrorCode.invalid_floor_id no_floor_id s))
  | inr (fid, x) ↦
      let (made, at) = create_floor-Acts env m.user_id fid s in
      let s1 = (create_floor env fid s).0 in
      let f = (create_floor env fid s).1 in
      let s2 = (take_tx_id s1).0 in
      let rid = (take_tx_id s1).1 in
      let d = decide_grant env fid m.user_id rid s2 in
      let same : d.0.floors ≡ s1.floors =
        decide_grant-floors env fid m.user_id rid s2 ∙ take_tx_id-floors s1 in
      rw (x, ask)
        (Evolve-trans (after same made)
          (refused_or_asked-Acts env c p m fid rid f d.0 d.1 (ap (lookup fid) same ∙ at)))
]

pub answered-floors :
    (env : Env) (c : Carrier) (p : ℕ) (m : Message) (fid rid : ℕ) (s : Server)
    → ((answer_granted env c p m fid rid s).floors ≡ s.floors)
      × ((answer_denied env c p m fid rid s).floors ≡ s.floors)
answered-floors env c p m fid rid s = (
  update_session-floors p _ (send_floor_status c p m fid rid RequestStatus.granted s)
      ∙ send_floor_status-floors c p m fid rid RequestStatus.granted s,
  update_session-floors p _ (send_floor_status c p m fid rid RequestStatus.denied s)
      ∙ send_floor_status-floors c p m fid rid RequestStatus.denied s,
)

pending-floors :
    (env : Env) (c : Carrier) (p : ℕ) (m : Message) (a : Asked) (s : Server)
    → (answer_pending env c p m a s).floors ≡ s.floors
pending-floors env c p m a s =
    update_session-floors p _ (send_floor_status c p m a.floor_id a.request_id a.status s)
    ∙ send_floor_status-floors c p m a.floor_id a.request_id a.status s

pub handle_udp_floor_request-Acts :
    (env : Env) (p : ℕ) (m : Message) (s : Server)
    → Acts m.user_id s (handle_udp_floor_request env p m s)
unfolding handle_udp_floor_request
handle_udp_floor_request-Acts env p m s =
    let first = ask-Acts env udp p m s in
    let s1 = (ask env udp p m s).0 in
    elim (Option-cases (ask env udp p m s).1) [
      | inl x ↦ rw (x, handle_udp_floor_request) first
      | inr (a, x) ↦
          let u = m.user_id in
          let fid = a.floor_id in
          let rid = a.request_id in
          let by_grant : Acts u s (answer_granted env udp p m fid rid (granted env fid s1).0) =
            after (answered-floors env udp p m fid rid (granted env fid s1).0).0
              (Evolve-trans first (granted-Acts env u fid s1)) in
          let by_denial : Acts u s (answer_denied env udp p m fid rid (denied fid s1).0) =
            after (answered-floors env udp p m fid rid (denied fid s1).0).1
              (Evolve-trans first (denied-Acts u fid s1)) in
          let left : Acts u s (answer_pending env udp p m a s1) =
            after (pending-floors env udp p m a s1) first in
          rw (x, handle_udp_floor_request)
            (branch u s
              (a.should_grant && (a.status == RequestStatus.pending) && (granted env fid s1).1)
              (answer_granted env udp p m fid rid (granted env fid s1).0)
              (if not a.should_grant && (a.status == RequestStatus.pending) && (denied fid s1).1
                then answer_denied env udp p m fid rid (denied fid s1).0
                else answer_pending env udp p m a s1)
              by_grant
              (branch u s
                (not a.should_grant && (a.status == RequestStatus.pending) && (denied fid s1).1)
                (answer_denied env udp p m fid rid (denied fid s1).0)
                (answer_pending env udp p m a s1) by_denial left))
    ]

pub begin_floor_request-Acts :
    (env : Env) (p : ℕ) (m : Message) (s : Server)
    → Acts m.user_id s (begin_floor_request env p m s).0
unfolding begin_floor_request
begin_floor_request-Acts env p m s =
    let first = ask-Acts env tcp p m s in
    let s1 = (ask env tcp p m s).0 in
    elim (Option-cases (ask env tcp p m s).1) [
      | inl x ↦ rw (x, begin_floor_request) first
      | inr (a, x) ↦
          let u = m.user_id in
          let fid = a.floor_id in
          let rid = a.request_id in
          let s2 = send_floor_status tcp p m fid rid a.status s1 in
          let sent : Acts u s s2 =
            after (send_floor_status-floors tcp p m fid rid a.status s1) first in
          let by_denial : Acts u s (answer_denied env tcp p m fid rid (denied fid s2).0) =
            after (answered-floors env tcp p m fid rid (denied fid s2).0).1
              (Evolve-trans sent (denied-Acts u fid s2)) in
          let left : Acts u s (update_session p (set_state env.now floor_requested) s2) =
            after (update_session-floors p (set_state env.now floor_requested) s2) sent in
          elim (Bool-cases (a.should_grant && (a.status == RequestStatus.pending))) [
            | inl y ↦ rw (x, begin_floor_request) (rw y sent)
            | inr y ↦
                elim (Bool-cases (not a.should_grant && (a.status == RequestStatus.pending))) [
                  | inl z ↦
                      rw (x, begin_floor_request)
                        (rw y (
                          rw z (
                            branch u s (denied fid s2).1
                              (answer_denied env tcp p m fid rid (denied fid s2).0) s2 by_denial
                              sent)))
                  | inr z ↦ rw (x, begin_floor_request) (rw y (rw z left))
                ]
          ]
    ]

pub finish_floor_request-Acts :
    (env : Env) (p : ℕ) (m : Message) (kept : Kept) (fid rid : ℕ) (s : Server)
    → Acts m.user_id s (finish_floor_request env p m kept fid rid s)
unfolding finish_floor_request
finish_floor_request-Acts env p m (deleted f) fid rid s =
    branch m.user_id s (granted_kept env (deleted f) fid s).1 (answer_granted env tcp p m fid rid s)
      s (quiet (answered-floors env tcp p m fid rid s).0) stay
finish_floor_request-Acts env p m in_map fid rid s =
    branch m.user_id s (granted env fid s).1
      (answer_granted env tcp p m fid rid (granted env fid s).0) s
      (after (answered-floors env tcp p m fid rid (granted env fid s).0).0
        (granted-Acts env m.user_id fid s))
      stay

pub handle_floor_request-Acts :
    (env : Env) (p : ℕ) (m : Message) (s : Server)
    → Acts m.user_id s (handle_floor_request env p m s)
unfolding handle_floor_request
handle_floor_request-Acts env p m s =
    let first = begin_floor_request-Acts env p m s in
    let s1 = (begin_floor_request env p m s).0 in
    elim (Option-cases (begin_floor_request env p m s).1) [
      | inl x ↦ rw (x, handle_floor_request) first
      | inr (k, x) ↦
          let (fid, rid) = k in
          rw (x, handle_floor_request)
            (Evolve-trans first (finish_floor_request-Acts env p m in_map fid rid s1))
    ]
