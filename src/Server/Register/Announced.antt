-- ===== src/Server/Register/Announced.antt =====
-- What a client that is registered is told.
use bfcp.Base.{ℕ, ◌≡◌, refl, ◌∙◌, inl, inr, Option-cases, some, List, [], ◌∷◌, ◌++◌, nat_eq, arith}
use bfcp.Base.Result.{ok}
use bfcp.Base.Dict.{lookup}
use bfcp.Message.{Message}
use bfcp.Message.Decode.{decode}
use bfcp.Message.Status.{Reports}
use bfcp.Server.{Server, Env, sent_raw, take_tx_id}
use bfcp.Server.Hello.{register}
use bfcp.Server.Dispatch.{allocate_session}
use bfcp.Server.Register.{
  send_floor_state, send_floor_state_to, broadcast_floor_state, state_of, registered_session,
  register_client,
}

pub send_floor_state-floors :
    (p fid st : ℕ) (s : Server) → (send_floor_state p fid st s).floors ≡ s.floors
unfolding send_floor_state take_tx_id
send_floor_state-floors p fid st s = ground arith

send_floor_state_to-floors :
    (fid st : ℕ) (l : List (ℕ × ℕ)) (s : Server)
    → (send_floor_state_to fid st l s).floors ≡ s.floors
unfolding send_floor_state_to
send_floor_state_to-floors fid st [] s = refl
send_floor_state_to-floors fid st ((addr, p) ∷ rest) s =
    send_floor_state_to-floors fid st rest (send_floor_state p fid st s)
    ∙ send_floor_state-floors p fid st s

pub broadcast_floor_state-floors :
    (fid st : ℕ) (s : Server) → (broadcast_floor_state fid st s).floors ≡ s.floors
unfolding broadcast_floor_state
broadcast_floor_state-floors fid st s = send_floor_state_to-floors fid st s.sessions s

pub register_client-floors :
    (env : Env) (fresh addr u fid v : ℕ) (s : Server)
    → (register_client env fresh addr u fid v s).floors ≡ s.floors
unfolding register_client
register_client-floors env fresh addr u fid v s = elim (Option-cases (lookup addr s.sessions)) [
  | inr (p, x) ↦ rw (x, register_client) (send_floor_state-floors p fid (state_of fid s) s)
  | inl x ↦
      rw (x, register_client)
        (send_floor_state-floors fresh fid (state_of fid s)
          (register fresh addr (allocate_session fresh (registered_session env u v addr s) s)))
]

-- The session is registered, and the last message is one that tells it the state of the floor.
pub record IsTold (fresh addr user fid status : ℕ) (s t : Server) : Type 0 where
  pub found : lookup addr t.sessions ≡ some fresh
  pub octets : List ℕ
  pub last : t.log ≡ s.log ++ (sent_raw fresh octets ∷ [])
  pub got : Message
  pub decoded : decode (octets ++ []) ≡ ok got
  pub for_user : got.user_id ≡ user
  pub reported : Reports 1 status fid got
