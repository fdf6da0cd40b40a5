-- ===== src/Server/Acts/Dispatch.antt =====
-- Every message, over TCP or UDP, changes the floors for its user only.
use bfcp.Base.{ℕ, ◌==◌, if◌then◌else◌, Option-cases, ◌≡◌, refl, ◌∙◌, inl, inr, nat_eq}
use bfcp.Base.Dict.{lookup}
use bfcp.Types.Primitive
use bfcp.Session.{set_state, wait_floor_request}
use bfcp.Message.{Message}
use bfcp.Server.{Carrier, tcp, udp, Server, Env, update_session}
use bfcp.Server.Send.{send}
use bfcp.Server.Frame.{send-floors, update_session-floors}
use bfcp.Server.Evolve.{stay, Evolve-trans}
use bfcp.Server.Request.{handle_floor_request, handle_udp_floor_request}
use bfcp.Server.Release.{
  handle_floor_release, handle_udp_floor_release, handle_floor_query, handle_udp_floor_query,
  owned_floors, handle_goodbye, handle_udp_goodbye,
}
use bfcp.Server.Hello.{greet, register, hello_ack, welcome, handle_hello, handle_udp_hello}
use bfcp.Server.Dispatch.{
  seen, handle_message, handle_udp_message, new_session, allocate_session, receive_datagram,
}
use bfcp.Server.Acts.{Acts, quiet, branch, handle_udp_floor_request-Acts, handle_floor_request-Acts}
use bfcp.Server.Acts.Release.{
  floor_release-Acts, floor_query-floors, release_floors-Acts, handle_goodbye-Acts,
}

welcome-floors :
    (env : Env) (c : Carrier) (p addr : ℕ) (m : Message) (s : Server)
    → (welcome env c p addr m s).floors ≡ s.floors
welcome-floors env c p addr m s =
    let s1 = update_session p (greet m) (register p addr s) in
    let s2 = send p (hello_ack c m) s1 in
    update_session-floors p (set_state env.now wait_floor_request) s2
    ∙ send-floors p (hello_ack c m) s1
    ∙ update_session-floors p (greet m) (register p addr s)

handle_hello-floors :
    (env : Env) (p : ℕ) (m : Message) (s : Server) → (handle_hello env p m s).floors ≡ s.floors
unfolding handle_hello
handle_hello-floors env p m s = elim (Option-cases (lookup p s.objects)) [
  | inl x ↦ rw (x, handle_hello) refl
  | inr (sess, x) ↦ rw (x, handle_hello) (welcome-floors env tcp p sess.remote m s)
]

handle_udp_hello-floors :
    (env : Env) (p : ℕ) (m : Message) (s : Server) → (handle_udp_hello env p m s).floors ≡ s.floors
unfolding handle_udp_hello
handle_udp_hello-floors env p m s = elim (Option-cases (lookup p s.objects)) [
  | inl x ↦ rw (x, handle_udp_hello) refl
  | inr (sess, x) ↦ elim (Option-cases (lookup sess.remote s.sessions)) [
    | inl y ↦ rw (x, handle_udp_hello) (rw y (welcome-floors env udp p sess.remote m s))
    | inr (q, y) ↦ rw (x, handle_udp_hello) (rw y (welcome-floors env udp p sess.remote m s))
  ]
]

-- The `switch`: what all its cases do.
switch :
    (u prim : ℕ) (s t1 t2 t3 t4 t5 : Server)
    → Acts u s t1
    → Acts u s t2
    → Acts u s t3
    → Acts u s t4
    → Acts u s t5
    → Acts u s (
        if prim == Primitive.hello
        then t1
        else if prim == Primitive.floor_request
        then t2
        else if prim == Primitive.floor_release
        then t3
        else if prim == Primitive.floor_query
        then t4
        else if prim == Primitive.goodbye
        then t5
        else s)
switch u prim s t1 t2 t3 t4 t5 a1 a2 a3 a4 a5 =
    let r4 = if prim == Primitive.goodbye then t5 else s in
    let r3 = if prim == Primitive.floor_query then t4 else r4 in
    let r2 = if prim == Primitive.floor_release then t3 else r3 in
    let r1 = if prim == Primitive.floor_request then t2 else r2 in
    branch u s (prim == Primitive.hello) t1 r1 a1 (
      branch u s (prim == Primitive.floor_request) t2 r2 a2 (
        branch u s (prim == Primitive.floor_release) t3 r3 a3 (
          branch u s (prim == Primitive.floor_query) t4 r4 a4
            (branch u s (prim == Primitive.goodbye) t5 s a5 stay))))

pub handle_message-Acts :
    (env : Env) (p : ℕ) (m : Message) (s : Server) → Acts m.user_id s (handle_message env p m s)
unfolding handle_message handle_floor_release handle_floor_query
handle_message-Acts env p m s0 =
    let s = update_session p (seen env m) s0 in
    Evolve-trans (quiet (update_session-floors p (seen env m) s0)) (
      switch m.user_id m.primitive s (handle_hello env p m s) (handle_floor_request env p m s)
        (handle_floor_release env p m s) (handle_floor_query env p m s) (handle_goodbye env p m s)
        (quiet (handle_hello-floors env p m s)) (handle_floor_request-Acts env p m s)
        (floor_release-Acts env tcp p m s) (quiet (floor_query-floors env tcp p m s))
        (handle_goodbye-Acts env p m s))

pub handle_udp_message-Acts :
    (env : Env) (p : ℕ) (m : Message) (s : Server) → Acts m.user_id s (handle_udp_message env p m s)
unfolding handle_udp_message handle_udp_floor_release handle_udp_floor_query handle_udp_goodbye
handle_udp_message-Acts env p m s0 =
    let s = update_session p (seen env m) s0 in
    Evolve-trans (quiet (update_session-floors p (seen env m) s0)) (
      switch m.user_id m.primitive s (handle_udp_hello env p m s)
        (handle_udp_floor_request env p m s) (handle_udp_floor_release env p m s)
        (handle_udp_floor_query env p m s) (handle_udp_goodbye p m s)
        (quiet (handle_udp_hello-floors env p m s)) (handle_udp_floor_request-Acts env p m s)
        (floor_release-Acts env udp p m s) (quiet (floor_query-floors env udp p m s))
        (release_floors-Acts udp p m (owned_floors m.user_id s.floors) s))

pub receive_datagram-Acts :
    (env : Env) (fresh addr : ℕ) (m : Message) (s : Server)
    → Acts m.user_id s (receive_datagram env fresh addr m s)
unfolding receive_datagram
receive_datagram-Acts env fresh addr m s = elim (Option-cases (lookup addr s.sessions)) [
  | inr (p, x) ↦ rw (x, receive_datagram) (handle_udp_message-Acts env p m s)
  | inl x ↦
      rw (x, receive_datagram)
        (handle_udp_message-Acts env fresh m
          (allocate_session fresh (new_session env udp addr s) s))
]
