-- ===== src/Server/Safety.antt =====
-- The server as a relation between states: what its goroutines and the application do, a handler
-- at a time. A TCP floor request is a message as a whole, or begins and resumes with any other steps
-- in between.
use bfcp.Base.{
  ℕ, suc, ◌==◌, if◌then◌else◌, Bool-cases, Option-cases, none, ◌≡◌, ◌≢◌, refl, sym, ap, ◌∙◌, inl,
  inr, nat_eq, ==_iff, subst, arith,
}
use bfcp.Base.Dict.{lookup, remove, lookup-remove}
use bfcp.Floor.{apply, do_grant}
use bfcp.Message.{Message}
use bfcp.Server.{Server, Env, get_floor, release_floor, update_session}
use bfcp.Server.Evolve.{
  Floors, Evolve, stay, act, ByUser, FloorsValid, Evolve-FloorsValid, Holds, Evolve-Holds,
}
use bfcp.Server.Frame.{update_session-floors}
use bfcp.Server.Request.{Kept, begin_floor_request, finish_floor_request}
use bfcp.Server.Release.{grant_floor}
use bfcp.Server.Dispatch.{
  seen, handle_message, handle_connection, connection_closed, receive_datagram,
}
use bfcp.Server.Acts.{Acts, quiet, begin_floor_request-Acts, finish_floor_request-Acts}
use bfcp.Server.Register.{register_client, broadcast_floor_state}
use bfcp.Server.Register.Announced.{register_client-floors, broadcast_floor_state-floors}
use bfcp.Server.Acts.Dispatch.{handle_message-Acts, receive_datagram-Acts}

-- `user` tells who may send messages, `deleted` which floors the application may delete.
pub data Step (user deleted : ℕ → Type 0) (s : Server) : Server → Type 0 where
  connects : (env : Env) (fresh addr : ℕ) → Step user deleted s (handle_connection env fresh addr s)
  disconnects : (p : ℕ) → Step user deleted s (connection_closed p s)
  message :
      (env : Env) (p : ℕ) (m : Message)
      → user m.user_id
      → Step user deleted s (handle_message env p m s)
  datagram :
      (env : Env) (fresh addr : ℕ) (m : Message)
      → user m.user_id
      → Step user deleted s (receive_datagram env fresh addr m s)
  request_begins :
      (env : Env) (p : ℕ) (m : Message)
      → user m.user_id
      → Step user deleted s (begin_floor_request env p m (update_session p (seen env m) s)).0
  request_resumes :
      (env : Env) (p : ℕ) (m : Message) (kept : Kept) (fid rid : ℕ)
      → user m.user_id
      → Step user deleted s (finish_floor_request env p m kept fid rid s)
  application_registers :
      (env : Env) (fresh addr u fid version : ℕ)
      → Step user deleted s (register_client env fresh addr u fid version s)
  application_announces :
      (fid status : ℕ) → Step user deleted s (broadcast_floor_state fid status s)
  application_grants : (env : Env) (fid : ℕ) → Step user deleted s (grant_floor env fid s).0
  application_deletes : (fid : ℕ) → deleted fid → Step user deleted s (release_floor fid s)

pub data Steps (user deleted : ℕ → Type 0) (s : Server) : Server → Type 0 where
  start : Steps user deleted s s
  next : {t t' : Server} → Steps user deleted s t → Step user deleted t t' → Steps user deleted s t'

handle_connection-floors :
    (env : Env) (fresh addr : ℕ) (s : Server)
    → (handle_connection env fresh addr s).floors ≡ s.floors
unfolding handle_connection
handle_connection-floors env fresh addr s = refl

connection_closed-floors : (p : ℕ) (s : Server) → (connection_closed p s).floors ≡ s.floors
unfolding connection_closed
connection_closed-floors p s = ground arith

grant_floor-Acts : (env : Env) (u fid : ℕ) (s : Server) → Acts u s (grant_floor env fid s).0
unfolding grant_floor get_floor apply
grant_floor-Acts env u fid s = elim (Option-cases (lookup fid s.floors)) [
  | inl x ↦ rw (x, grant_floor) stay
  | inr (f, x) ↦ rw (x, grant_floor) (act (do_grant env.now) fid f stay tt x)
]

begins-Acts :
    (env : Env) (p : ℕ) (m : Message) (s : Server)
    → Acts m.user_id s (begin_floor_request env p m (update_session p (seen env m) s)).0
begins-Acts env p m s =
    subst
      (λ fs.
        Evolve (ByUser m.user_id) fs
          (begin_floor_request env p m (update_session p (seen env m) s)).0.floors)
      (update_session-floors p (seen env m) s)
      (begin_floor_request-Acts env p m (update_session p (seen env m) s))

remove-FloorsValid : (fid : ℕ) (fs : Floors) → FloorsValid fs → FloorsValid (remove fid fs)
remove-FloorsValid fid fs v id f e = elim (Bool-cases (fid == id)) [
  | inl x ↦
      let gone : lookup id (remove fid fs) ≡ none =
        lookup-remove fid id fs ∙ ap (λ b. if b then none else lookup id fs) x in
      absurd (let no : ⊥ = cc in no)
  | inr x ↦
      v id f (sym (lookup-remove fid id fs ∙ ap (λ b. if b then none else lookup id fs) x) ∙ e)
]

pub Step-FloorsValid :
    {user deleted : ℕ → Type 0} {s t : Server}
    → Step user deleted s t
    → FloorsValid s.floors
    → FloorsValid t.floors
Step-FloorsValid {s = s} (connects env fresh addr) v =
    Evolve-FloorsValid {P = ByUser 0} (quiet (handle_connection-floors env fresh addr s)) v
Step-FloorsValid {s = s} (disconnects p) v =
    Evolve-FloorsValid {P = ByUser 0} (quiet (connection_closed-floors p s)) v
Step-FloorsValid {s = s} (message env p m w) v =
    Evolve-FloorsValid (handle_message-Acts env p m s) v
Step-FloorsValid {s = s} (datagram env q a m w) v =
    Evolve-FloorsValid (receive_datagram-Acts env q a m s) v
Step-FloorsValid {s = s} (request_begins env p m w) v = Evolve-FloorsValid (begins-Acts env p m s) v
Step-FloorsValid {s = s} (request_resumes env p m kept fid rid w) v =
    Evolve-FloorsValid (finish_floor_request-Acts env p m kept fid rid s) v
Step-FloorsValid {s = s} (application_registers env fresh addr u fid version) v =
    subst FloorsValid (sym (register_client-floors env fresh addr u fid version s)) v
Step-FloorsValid {s = s} (application_announces fid status) v =
    subst FloorsValid (sym (broadcast_floor_state-floors fid status s)) v
Step-FloorsValid {s = s} (application_grants env fid) v =
    Evolve-FloorsValid (grant_floor-Acts env 0 fid s) v
Step-FloorsValid {s = s} (application_deletes fid d) v = remove-FloorsValid fid s.floors v

-- What the users other than `u` can send, but user 0; and all deletions but that of `id`.
abbrev pub Others : (user : ℕ) → ℕ → Type 0
Others u v = (v ≢ u) × (v ≢ 0)

abbrev pub Elsewhere : (id : ℕ) → ℕ → Type 0
Elsewhere id fid = fid ≢ id

remove-Holds :
    (fid id u r : ℕ) (fs : Floors) → fid ≢ id → Holds id u r fs → Holds id u r (remove fid fs)
remove-Holds fid id u r fs ne (f, at, held) = elim (Bool-cases (fid == id)) [
  | inl x ↦ absurd (ne ((==_iff fid id).0 x))
  | inr x ↦ (f, lookup-remove fid id fs ∙ ap (λ b. if b then none else lookup id fs) x ∙ at, held)
]

Step-Holds :
    {s t : Server} (id u r : ℕ)
    → Step (Others u) (Elsewhere id) s t
    → Holds id u r s.floors
    → Holds id u r t.floors
Step-Holds {s = s} id u r (connects env fresh addr) h =
    subst (Holds id u r) (sym (handle_connection-floors env fresh addr s)) h
Step-Holds {s = s} id u r (disconnects p) h =
    subst (Holds id u r) (sym (connection_closed-floors p s)) h
Step-Holds {s = s} id u r (message env p m w) h =
    Evolve-Holds id u r w.0 w.1 (handle_message-Acts env p m s) h
Step-Holds {s = s} id u r (datagram env q a m w) h =
    Evolve-Holds id u r w.0 w.1 (receive_datagram-Acts env q a m s) h
Step-Holds {s = s} id u r (request_begins env p m w) h =
    Evolve-Holds id u r w.0 w.1 (begins-Acts env p m s) h
Step-Holds {s = s} id u r (request_resumes env p m kept fid rid w) h =
    Evolve-Holds id u r w.0 w.1 (finish_floor_request-Acts env p m kept fid rid s) h
Step-Holds {s = s} id u r (application_registers env fresh addr v fid version) h =
    subst (Holds id u r) (sym (register_client-floors env fresh addr v fid version s)) h
Step-Holds {s = s} id u r (application_announces fid status) h =
    subst (Holds id u r) (sym (broadcast_floor_state-floors fid status s)) h
Step-Holds {s = s} id u r (application_grants env fid) h =
    let other : suc u ≢ u = λ e. let no : ⊥ = omega arith in no in
    let some_one : suc u ≢ 0 = λ e. let no : ⊥ = omega arith in no in
    Evolve-Holds id u r other some_one (grant_floor-Acts env (suc u) fid s) h
Step-Holds {s = s} id u r (application_deletes fid d) h = remove-Holds fid id u r s.floors d h

-- A floor that user `u` holds stays with `u`, under the same request ID, while the other users
-- other than 0 send whatever they like over TCP and UDP, in any order of the handlers and of the two
-- parts of a TCP floor request, connections come and go, and the application registers clients,
-- grants any floors and deletes others.
pub Steps-Holds :
    (id u r : ℕ) {s t : Server}
    → Steps (Others u) (Elsewhere id) s t
    → Holds id u r s.floors
    → Holds id u r t.floors
Steps-Holds id u r start h = h
Steps-Holds id u r (next rs a) h = Step-Holds id u r a (Steps-Holds id u r rs h)
