-- ===== src/Server/Frame.antt =====
-- Sending and the session's bookkeeping leave the floors alone.
use bfcp.Base.{
  ℕ, Bool, true, false, Option, ◌≡◌, refl, ◌∙◌, List, [], ◌∷◌, nat_eq, if◌then◌else◌, arith,
}
use bfcp.Session.{SessionStateMachine}
use bfcp.Message.{Message}
use bfcp.Server.{Carrier, Server, Env, ErrorText, take_tx_id, update_session}
use bfcp.Server.Send.{
  send, skips, notify, send_floor_status, send_error, broadcast_to, broadcast_floor_status,
}

pub send-floors : (p : ℕ) (m : Message) (s : Server) → (send p m s).floors ≡ s.floors
unfolding send
send-floors p m s = ground arith

pub send_floor_status-floors :
    (c : Carrier) (p : ℕ) (m : Message) (fid rid st : ℕ) (s : Server)
    → (send_floor_status c p m fid rid st s).floors ≡ s.floors
unfolding send_floor_status
send_floor_status-floors c p m fid rid st s = ground arith

pub send_error-floors :
    (env : Env) (c : Carrier) (p : ℕ) (m : Message) (code : ℕ) (t : ErrorText) (s : Server)
    → (send_error env c p m code t s).floors ≡ s.floors
unfolding send_error
send_error-floors env c p m code t s = ground arith

pub update_session-floors :
    (p : ℕ) (g : SessionStateMachine → SessionStateMachine) (s : Server)
    → (update_session p g s).floors ≡ s.floors
unfolding update_session
update_session-floors p g s = ground arith

pub take_tx_id-floors : (s : Server) → (take_tx_id s).0.floors ≡ s.floors
unfolding take_tx_id
take_tx_id-floors s = refl

notify-floors : (u fid rid st p : ℕ) (s : Server) → (notify u fid rid st p s).floors ≡ s.floors
unfolding notify
notify-floors u fid rid st p s = ground arith

either-floors :
    (b : Bool) (s t : Server) → t.floors ≡ s.floors → (if b then s else t).floors ≡ s.floors
either-floors true s t h = refl
either-floors false s t h = h

broadcast_to-floors :
    (o : Bool) (x : Option ℕ) (u fid rid st : ℕ) (l : List (ℕ × ℕ)) (s : Server)
    → (broadcast_to o x u fid rid st l s).floors ≡ s.floors
unfolding broadcast_to
broadcast_to-floors o x u fid rid st [] s = refl
broadcast_to-floors o x u fid rid st ((addr, p) ∷ rest) s =
    let next = notify u fid rid st p s in
    broadcast_to-floors o x u fid rid st rest (if skips o x p s then s else next)
    ∙ either-floors (skips o x p s) s next (notify-floors u fid rid st p s)

pub broadcast_floor_status-floors :
    (o : Bool) (x : Option ℕ) (u fid rid st : ℕ) (s : Server)
    → (broadcast_floor_status o x u fid rid st s).floors ≡ s.floors
unfolding broadcast_floor_status
broadcast_floor_status-floors o x u fid rid st s = broadcast_to-floors o x u fid rid st s.sessions s
