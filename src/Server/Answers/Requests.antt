-- ===== src/Server/Answers/Requests.antt =====
-- A FloorRequest over UDP is answered once: the decision is in the one response.
use bfcp.Base.{
  ℕ, ◌==◌, if◌then◌else◌, Bool, true, false, not, ◌&&◌, Option, Option-cases, none, some, ◌≡◌, refl,
  ap, ◌∙◌, inl, inr, nat_eq, subst,
}
use bfcp.Base.Dict.{lookup}
use bfcp.Types.RequestStatus
use bfcp.Types.ErrorCode
use bfcp.Floor.{FloorStateMachine, request, grant, deny}
use bfcp.Session.{set_state, floor_granted, floor_denied, floor_requested}
use bfcp.Message.{Message}
use bfcp.Message.Fields.{get_floor_id}
use bfcp.Server.{
  Carrier, udp, Session, Server, Env, no_floor_id, floor_error, emit, on_floor_request,
  on_floor_granted, on_floor_denied, get_floor, create_floor, take_tx_id, update_session,
}
use bfcp.Server.Send.{send_floor_status, send_error}
use bfcp.Server.Request.{
  Asked, request_priority, decide_grant, refused_or_asked, ask, granted, denied, answer_granted,
  answer_denied, answer_pending, handle_udp_floor_request,
}
use bfcp.Server.Answers.{
  to_session, emit-to_session, Answers, IsSilent, send_floor_status-Answers, send_error-Answers,
  update_session-log,
}
use bfcp.Server.Answers.Handlers.{then_silent, silent_then}

silent : (p : ℕ) (s : Server) → IsSilent p s s
silent p s = record { same_messages = refl; same_objects = refl }

IsSilent-trans : {p : ℕ} {s t u : Server} → IsSilent p s t → IsSilent p t u → IsSilent p s u
IsSilent-trans a b = record {
  same_messages = b.same_messages ∙ a.same_messages;
  same_objects = b.same_objects ∙ a.same_objects;
}

create_floor-IsSilent : (env : Env) (p id : ℕ) (s : Server) → IsSilent p s (create_floor env id s).0
unfolding create_floor
create_floor-IsSilent env p id s = elim (Option-cases (lookup id s.floors)) [
  | inr (f, e) ↦ rw (e, create_floor) (silent p s)
  | inl e ↦ rw (e, create_floor) (record { same_messages = refl; same_objects = refl })
]

take_tx_id-IsSilent : (p : ℕ) (s : Server) → IsSilent p s (take_tx_id s).0
unfolding take_tx_id
take_tx_id-IsSilent p s = record { same_messages = refl; same_objects = refl }

decide_grant-IsSilent :
    (env : Env) (p fid u rid : ℕ) (s : Server) → IsSilent p s (decide_grant env fid u rid s).0
decide_grant-IsSilent env p fid u rid s = elim (Option-cases env.decide) [
  | inl e ↦ rw (e, decide_grant) (silent p s)
  | inr (hook, e) ↦
      rw (e, decide_grant)
        (record {
          same_messages = emit-to_session p (on_floor_request fid u rid) s refl;
          same_objects = refl;
        })
]

granted-IsSilent : (env : Env) (p fid : ℕ) (s : Server) → IsSilent p s (granted env fid s).0
unfolding get_floor
granted-IsSilent env p fid s = elim (Option-cases (lookup fid s.floors)) [
  | inl e ↦ rw (e, granted) (silent p s)
  | inr (f, e) ↦ elim (Option-cases (grant env.now f).1) [
    | inl x ↦ rw (e, granted) (rw x (record { same_messages = refl; same_objects = refl }))
    | inr (err, x) ↦ rw (e, granted) (rw x (silent p s))
  ]
]

denied-IsSilent : (p fid : ℕ) (s : Server) → IsSilent p s (denied fid s).0
unfolding get_floor
denied-IsSilent p fid s = elim (Option-cases (lookup fid s.floors)) [
  | inl e ↦ rw (e, denied) (silent p s)
  | inr (f, e) ↦ elim (Option-cases (deny f).1) [
    | inl x ↦ rw (e, denied) (rw x (record { same_messages = refl; same_objects = refl }))
    | inr (err, x) ↦ rw (e, denied) (rw x (silent p s))
  ]
]

-- `ask` has answered when it refuses, and has sent nothing when it goes on.
abbrev pub AskedOnce : (p : ℕ) (m : Message) (s : Server) → Server × Option Asked → Type 0
AskedOnce p m s (t, none) = Answers p m s t
AskedOnce p m s (t, some a) = IsSilent p s t

refused_or_asked-AskedOnce :
    (env : Env) (c : Carrier) (p : ℕ) (m : Message) (fid rid : ℕ) (f : FloorStateMachine)
    (s : Server) (b : Bool) (sess : Session)
    → lookup p s.objects ≡ some sess
    → AskedOnce p m s (refused_or_asked env c p m fid rid f (s, b))
unfolding refused_or_asked
refused_or_asked-AskedOnce env c p m fid rid f s b sess at =
    let prio = request_priority m in
    elim (Option-cases (request f m.user_id rid prio).1.1) [
      | inl x ↦ rw (x, refused_or_asked) (record { same_messages = refl; same_objects = refl })
      | inr (err, x) ↦
          rw (x, refused_or_asked)
            (then_silent
              (send_error-Answers env c p m ErrorCode.unauthorized_operation (floor_error err) sess
                s at)
              (emit-to_session p (on_floor_denied fid m.user_id rid)
                (send_error env c p m ErrorCode.unauthorized_operation (floor_error err) s) refl))
    ]

silent_AskedOnce :
    (p : ℕ) (m : Message) (s s' : Server) (r : Server × Option Asked)
    → IsSilent p s s'
    → AskedOnce p m s' r
    → AskedOnce p m s r
silent_AskedOnce p m s s' (t, none) q a = silent_then q.same_messages a
silent_AskedOnce p m s s' (t, some k) q a = IsSilent-trans q a

ask-AskedOnce :
    (env : Env) (c : Carrier) (p : ℕ) (m : Message) (sess : Session) (s : Server)
    → lookup p s.objects ≡ some sess
    → AskedOnce p m s (ask env c p m s)
unfolding ask
ask-AskedOnce env c p m sess s at = elim (Option-cases (get_floor_id m)) [
  | inl x ↦
      rw (x, ask) (send_error-Answers env c p m ErrorCode.invalid_floor_id no_floor_id sess s at)
  | inr (fid, x) ↦
      let s1 = (create_floor env fid s).0 in
      let f = (create_floor env fid s).1 in
      let s2 = (take_tx_id s1).0 in
      let rid = (take_tx_id s1).1 in
      let d = decide_grant env fid m.user_id rid s2 in
      let quiet : IsSilent p s d.0 = IsSilent-trans (create_floor-IsSilent env p fid s) (
        IsSilent-trans (take_tx_id-IsSilent p s1)
          (decide_grant-IsSilent env p fid m.user_id rid s2)) in
      rw (x, ask)
        (silent_AskedOnce p m s d.0 (refused_or_asked env c p m fid rid f d) quiet (
          refused_or_asked-AskedOnce env c p m fid rid f d.0 d.1 sess
            (ap (lookup p) quiet.same_objects ∙ at)))
]

-- What follows the one response.
answered-Answers :
    (env : Env) (p : ℕ) (m : Message) (fid rid st : ℕ) (e : Server → Server) (sess : Session)
    (s s' : Server)
    → lookup p s.objects ≡ some sess
    → IsSilent p s s'
    → to_session p (e (send_floor_status udp p m fid rid st s')).log
      ≡ to_session p (send_floor_status udp p m fid rid st s').log
    → Answers p m s (e (send_floor_status udp p m fid rid st s'))
answered-Answers env p m fid rid st e sess s s' at quiet after = silent_then quiet.same_messages (
    then_silent
      (send_floor_status-Answers udp p m fid rid st sess s' (ap (lookup p) quiet.same_objects ∙ at))
      after)

branch-Answers :
    (p : ℕ) (m : Message) (s : Server) (b : Bool) (t t' : Server)
    → Answers p m s t
    → Answers p m s t'
    → Answers p m s (if b then t else t')
branch-Answers p m s true t t' x y = x
branch-Answers p m s false t t' x y = y

asked-Answers :
    (env : Env) (p : ℕ) (m : Message) (a : Asked) (sess : Session) (s s1 : Server)
    → lookup p s.objects ≡ some sess
    → IsSilent p s s1
    → Answers p m s
        (answer_granted env udp p m a.floor_id a.request_id (granted env a.floor_id s1).0)
      × Answers p m s (answer_denied env udp p m a.floor_id a.request_id (denied a.floor_id s1).0)
      × Answers p m s (answer_pending env udp p m a s1)
asked-Answers env p m a sess s s1 at quiet =
    let fid = a.floor_id in
    let rid = a.request_id in
    let sg = (granted env fid s1).0 in
    let sd = (denied fid s1).0 in
    let tg = send_floor_status udp p m fid rid RequestStatus.granted sg in
    let td = send_floor_status udp p m fid rid RequestStatus.denied sd in
    let tp = send_floor_status udp p m fid rid a.status s1 in
    (
      answered-Answers env p m fid rid RequestStatus.granted
          (λ t.
            emit (on_floor_granted fid m.user_id rid)
              (update_session p (set_state env.now floor_granted) t))
          sess s sg at (IsSilent-trans quiet (granted-IsSilent env p fid s1))
          (emit-to_session p (on_floor_granted fid m.user_id rid)
              (update_session p (set_state env.now floor_granted) tg) refl
            ∙ ap (to_session p) (update_session-log p (set_state env.now floor_granted) tg)),
      answered-Answers env p m fid rid RequestStatus.denied
          (λ t.
            emit (on_floor_denied fid m.user_id rid)
              (update_session p (set_state env.now floor_denied) t))
          sess s sd at (IsSilent-trans quiet (denied-IsSilent p fid s1))
          (emit-to_session p (on_floor_denied fid m.user_id rid)
              (update_session p (set_state env.now floor_denied) td) refl
            ∙ ap (to_session p) (update_session-log p (set_state env.now floor_denied) td)),
      answered-Answers env p m fid rid a.status
          (update_session p (set_state env.now floor_requested)) sess s s1 at quiet
          (ap (to_session p) (update_session-log p (set_state env.now floor_requested) tp)),
    )

-- Over UDP a FloorRequest from a session that exists is answered once, whether it is refused, granted,
-- denied or left pending: the session is sent one message, with the transaction, user and
-- conference ID of the request.
pub handle_udp_floor_request-Answers :
    (env : Env) (p : ℕ) (m : Message) (sess : Session) (s : Server)
    → lookup p s.objects ≡ some sess
    → Answers p m s (handle_udp_floor_request env p m s)
unfolding handle_udp_floor_request
handle_udp_floor_request-Answers env p m sess s at =
    let once = ask-AskedOnce env udp p m sess s at in
    let s1 = (ask env udp p m s).0 in
    elim (Option-cases (ask env udp p m s).1) [
      | inl x ↦ rw (x, handle_udp_floor_request) (subst (λ o. AskedOnce p m s (s1, o)) x once)
      | inr (a, x) ↦
          let quiet : IsSilent p s s1 = subst (λ o. AskedOnce p m s (s1, o)) x once in
          let (g, d, w) = asked-Answers env p m a sess s s1 at quiet in
          let fid = a.floor_id in
          let rid = a.request_id in
          let pends = a.status == RequestStatus.pending in
          let tg = answer_granted env udp p m fid rid (granted env fid s1).0 in
          let td = answer_denied env udp p m fid rid (denied fid s1).0 in
          let tp = answer_pending env udp p m a s1 in
          let refuses = not a.should_grant && pends && (denied fid s1).1 in
          rw (x, handle_udp_floor_request)
            (branch-Answers p m s (a.should_grant && pends && (granted env fid s1).1) tg
              (if refuses then td else tp) g (branch-Answers p m s refuses td tp d w))
    ]
