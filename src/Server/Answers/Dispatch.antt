-- ===== src/Server/Answers/Dispatch.antt =====
-- What the switch over the primitives of a UDP message sends back.
use bfcp.Base.{
  ℕ, ◌==◌, if◌then◌else◌, Bool-cases, false, Option-cases, some, ◌≡◌, refl, ap, ◌∙◌, ◌⊎◌, inl, inr,
  List, [], ◌∷◌, nat_eq, arith,
}
use bfcp.Base.Dict.{lookup, lookup-insert_self}
use bfcp.Types.Primitive
use bfcp.Types.RequestStatus
use bfcp.Floor.{release}
use bfcp.Session.{SessionStateMachine, set_state, wait_floor_request}
use bfcp.Message.{Message, add_attribute, add_supported_primitives, add_supported_attributes}
use bfcp.Server.{
  Carrier, udp, Session, Server, Env, emit, on_client_connect, on_floor_released, get_floor,
  put_floor, update_session,
}
use bfcp.Server.Send.{send, broadcast_floor_status}
use bfcp.Server.Request.{handle_udp_floor_request}
use bfcp.Server.Release.{
  only_udp, handle_udp_floor_release, handle_udp_floor_query, owned_floors, release_floors,
  handle_udp_goodbye,
}
use bfcp.Server.Hello.{greet, register, hello_ack, welcome, handle_udp_hello}
use bfcp.Server.Dispatch.{seen, handle_udp_message}
use bfcp.Server.Answers.{
  to_session, emit-to_session, IsAnswer, Answers, send-Answers, response-IsAnswer, broadcast-except,
  update_session-log,
}
use bfcp.Server.Answers.Handlers.{
  then_silent, silent_then, floor_release-Answers, floor_query-Answers,
}
use bfcp.Server.Answers.Requests.{handle_udp_floor_request-Answers}

update_session-lookup :
    (p : ℕ) (g : SessionStateMachine → SessionStateMachine) (sess : Session) (s : Server)
    → lookup p s.objects ≡ some sess
    → lookup p (update_session p g s).objects ≡ some (record sess { machine = g sess.machine })
unfolding update_session
update_session-lookup p g sess s at =
    rw (at, update_session)
      (lookup-insert_self p (record sess { machine = g sess.machine }) s.objects)

hello_ack-IsAnswer : (c : Carrier) (m : Message) → IsAnswer m (hello_ack c m)
unfolding add_attribute add_supported_primitives add_supported_attributes
hello_ack-IsAnswer c m =
    let r = response-IsAnswer c Primitive.hello_ack m in
    record {
      same_transaction = r.same_transaction;
      same_user = r.same_user;
      same_conference = r.same_conference;
    }

welcome-Answers :
    (env : Env) (c : Carrier) (p addr : ℕ) (m : Message) (sess : Session) (s : Server)
    → lookup p s.objects ≡ some sess
    → Answers p m s (welcome env c p addr m s)
welcome-Answers env c p addr m sess s at =
    let s0 = register p addr s in
    let s1 = update_session p (greet m) s0 in
    let s2 = send p (hello_ack c m) s1 in
    silent_then (ap (to_session p) (update_session-log p (greet m) s0)) (
      then_silent
        (send-Answers p m (hello_ack c m) (record sess { machine = greet m sess.machine }) s1
          (update_session-lookup p (greet m) sess s0 at) (hello_ack-IsAnswer c m))
        (ap (to_session p) (update_session-log p (set_state env.now wait_floor_request) s2)))

handle_udp_hello-Answers :
    (env : Env) (p : ℕ) (m : Message) (sess : Session) (s : Server)
    → lookup p s.objects ≡ some sess
    → Answers p m s (handle_udp_hello env p m s)
unfolding handle_udp_hello
handle_udp_hello-Answers env p m sess s at =
    let greeted = welcome-Answers env udp p sess.remote m sess s at in
    elim (Option-cases (lookup sess.remote s.sessions)) [
      | inr (q, y) ↦ rw (at, handle_udp_hello) (rw y greeted)
      | inl y ↦
          rw (at, handle_udp_hello)
            (rw y (
              then_silent greeted (
                emit-to_session p (on_client_connect sess.remote m.user_id)
                  (welcome env udp p sess.remote m s) refl)))
    ]

-- The requests that a client makes over UDP, but for Goodbye.
abbrev pub IsRequest : ℕ → Type 0
IsRequest prim =
    (prim ≡ Primitive.hello)
    ⊎ (prim ≡ Primitive.floor_request)
    ⊎ (prim ≡ Primitive.floor_release)
    ⊎ (prim ≡ Primitive.floor_query)

switch-request :
    (p prim : ℕ) (m : Message) (s0 s t1 t2 t3 t4 t5 : Server)
    → IsRequest prim
    → Answers p m s0 t1
    → Answers p m s0 t2
    → Answers p m s0 t3
    → Answers p m s0 t4
    → Answers p m s0 (
        if prim == Primitive.hello
        then t1
        else if prim == Primitive.floor_request
        then t2
        else if prim == Primitive.floor_release
        then t3
        else if prim == Primitive.floor_query
        then t4
        else if prim == Primitive.goodbye
        then t5
        else s)
switch-request p prim m s0 s t1 t2 t3 t4 t5 (inl e) a b c d = rw e a
switch-request p prim m s0 s t1 t2 t3 t4 t5 (inr (inl e)) a b c d = rw e b
switch-request p prim m s0 s t1 t2 t3 t4 t5 (inr (inr (inl e))) a b c d = rw e c
switch-request p prim m s0 s t1 t2 t3 t4 t5 (inr (inr (inr e))) a b c d = rw e d

-- A Hello, FloorRequest, FloorRelease or FloorQuery that comes over UDP from a session that exists
-- is answered once, whatever the handler decides: the session is sent exactly one message, with the
-- transaction, user and conference ID of the request.
pub handle_udp_message-Answers :
    (env : Env) (p : ℕ) (m : Message) (sess : Session) (s : Server)
    → lookup p s.objects ≡ some sess
    → IsRequest m.primitive
    → Answers p m s (handle_udp_message env p m s)
unfolding handle_udp_message handle_udp_floor_release handle_udp_floor_query
handle_udp_message-Answers env p m sess s0 at0 r =
    let s = update_session p (seen env m) s0 in
    let sess1 = record sess { machine = seen env m sess.machine } in
    let at = update_session-lookup p (seen env m) sess s0 at0 in
    let quiet = ap (to_session p) (update_session-log p (seen env m) s0) in
    switch-request p m.primitive m s0 s (handle_udp_hello env p m s)
      (handle_udp_floor_request env p m s) (handle_udp_floor_release env p m s)
      (handle_udp_floor_query env p m s) (handle_udp_goodbye p m s) r
      (silent_then quiet (handle_udp_hello-Answers env p m sess1 s at))
      (silent_then quiet (handle_udp_floor_request-Answers env p m sess1 s at))
      (silent_then quiet (floor_release-Answers env udp p m sess1 s at))
      (silent_then quiet (floor_query-Answers env udp p m sess1 s at))

release_floors-silent :
    (c : Carrier) (p : ℕ) (m : Message) (fids : List ℕ) (s : Server)
    → to_session p (release_floors c p m fids s).log ≡ to_session p s.log
unfolding release_floors get_floor
release_floors-silent c p m [] s = refl
release_floors-silent c p m (fid ∷ fids) s = elim (Option-cases (lookup fid s.floors)) [
  | inl x ↦ rw (x, release_floors) (release_floors-silent c p m fids s)
  | inr (f, x) ↦ elim (Option-cases (release m.user_id f).1) [
    | inr (err, y) ↦ rw (x, release_floors) (rw y (release_floors-silent c p m fids s))
    | inl y ↦
        let f' = (release m.user_id f).0 in
        let s1 = put_floor fid f' s in
        let s2 =
          broadcast_floor_status (only_udp c) (some p) m.user_id fid f'.floor_request_id
            RequestStatus.released s1 in
        rw (x, release_floors)
          (rw y (
            release_floors-silent c p m fids (emit (on_floor_released fid m.user_id) s2)
            ∙ emit-to_session p (on_floor_released fid m.user_id) s2 refl
            ∙ broadcast-except (only_udp c) p m.user_id fid f'.floor_request_id
                RequestStatus.released s1))
  ]
]

-- A message over UDP that is none of the four, a Goodbye among them, is not answered: the session
-- that it came from is sent nothing.
pub handle_udp_message_silent :
    (env : Env) (p : ℕ) (m : Message) (s : Server)
    → ¬ IsRequest m.primitive
    → to_session p (handle_udp_message env p m s).log ≡ to_session p s.log
unfolding handle_udp_message handle_udp_goodbye
handle_udp_message_silent env p m s0 other =
    let s = update_session p (seen env m) s0 in
    let quiet = ap (to_session p) (update_session-log p (seen env m) s0) in
    let not_hello : (m.primitive == Primitive.hello) ≡ false = ground arith in
    let not_request : (m.primitive == Primitive.floor_request) ≡ false = ground arith in
    let not_release : (m.primitive == Primitive.floor_release) ≡ false = ground arith in
    let not_query : (m.primitive == Primitive.floor_query) ≡ false = ground arith in
    elim (Bool-cases (m.primitive == Primitive.goodbye)) [
      | inl g ↦
          rw (not_hello, not_request, not_release, not_query, g)
            (release_floors-silent udp p m (owned_floors m.user_id s.floors) s ∙ quiet)
      | inr g ↦ rw (not_hello, not_request, not_release, not_query, g) quiet
    ]
