-- ===== src/Server/Application.antt =====
-- The server with an application that calls any exported method of it, and of its floors: the steps
-- of Server/Safety for all users and floors, and what they leave out.
use bfcp.Base.{ℕ, false, none, some, ◌≡◌, sym, nat_eq, subst}
use bfcp.Base.Dict.{lookup}
use bfcp.Floor.{FloorStateMachine, Op, apply}
use bfcp.Server.{Server, ServerConfig, Env, create_floor, new_server, put_floor}
use bfcp.Server.Send.{broadcast_floor_status}
use bfcp.Server.Frame.{broadcast_floor_status-floors}
use bfcp.Server.Evolve.{stay, act, FloorsValid, Evolve-FloorsValid}
use bfcp.Server.Acts.{create_floor-Acts}
use bfcp.Server.Safety.{Step, Step-FloorsValid}

abbrev pub Everyone : ℕ → Type 0
Everyone n = Unit {0}

-- `calls` is a method of a floor that the application has from `CreateFloor`, `GetFloor` or
-- `ListFloors`. A call on a floor that was deleted since changes nothing of the server.
pub data Move (s : Server) : Server → Type 0 where
  serves : {t : Server} → Step Everyone Everyone s t → Move s t
  creates : (env : Env) (fid : ℕ) → Move s (create_floor env fid s).0
  calls :
      (op : Op) (fid : ℕ) (f : FloorStateMachine)
      → lookup fid s.floors ≡ some f
      → Move s (put_floor fid (apply op f).0 s)
  announces : (u fid rid status : ℕ) → Move s (broadcast_floor_status false none u fid rid status s)

pub data Moves (s : Server) : Server → Type 0 where
  at_start : Moves s s
  further : {t t' : Server} → Moves s t → Move t t' → Moves s t'

Move-FloorsValid : {s t : Server} → Move s t → FloorsValid s.floors → FloorsValid t.floors
Move-FloorsValid (serves a) v = Step-FloorsValid a v
Move-FloorsValid {s = s} (creates env fid) v =
    Evolve-FloorsValid (create_floor-Acts env 0 fid s).0 v
Move-FloorsValid {s = s} (calls op fid f at) v =
    Evolve-FloorsValid {P = λ o. Unit {0}} (act op fid f stay tt at) v
Move-FloorsValid {s = s} (announces u fid rid status) v =
    subst FloorsValid (sym (broadcast_floor_status-floors false none u fid rid status s)) v

Moves-FloorsValid : {s t : Server} → Moves s t → FloorsValid s.floors → FloorsValid t.floors
Moves-FloorsValid at_start v = v
Moves-FloorsValid (further r a) v = Move-FloorsValid a (Moves-FloorsValid r v)

-- Each floor of a server is consistent and has the ID that it is found under, after any sequence of
-- the following on a new server: it gets connections, loses them, and gets messages of any users over
-- TCP and UDP, a handler at a time, the two parts of a TCP floor request apart; and the application
-- registers clients, announces floor states and floor request statuses, creates, grants and deletes
-- floors, and calls `Request`, `Grant`, `Deny`, `Release` and `Revoke` of any floor.
pub reachable-FloorsValid :
    (config : ServerConfig) (t : Server) → Moves (new_server config) t → FloorsValid t.floors
unfolding new_server
reachable-FloorsValid config t r =
    Moves-FloorsValid r (λ id f e. absurd (unfold lookup in let no : ⊥ = cc in no))
